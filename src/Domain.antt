-- ===== src/Domain.antt =====
-- app/domain/money.py, app/domain/dto.py and app/domain/ports.py: the shapes that providers return
-- and the queries that they answer. Pydantic admits the numbers with `ge=0` and `gt=0` only, so they
-- are natural numbers.
pub mod Amounts
pub mod Floats
use smart_travel_aggregator.Prelude.{
  ℕ, ◌+◌, ◌-◌, ◌*◌, Bool, List, [], ◌++◌, eqb, if◌then◌else◌, nat_eq, list_eq, length, replicate,
}
use smart_travel_aggregator.Prelude.Decimal
use smart_travel_aggregator.Prelude.Text.{codes, Text}
use smart_travel_aggregator.Domain.Amounts.{Money}
use smart_travel_aggregator.Domain.Floats.{Float}

-- A `datetime` in UTC, by its fields.
pub record Datetime : Type 0 where
  pub year : ℕ
  pub month : ℕ
  pub day : ℕ
  pub hour : ℕ
  pub minute : ℕ
  pub second : ℕ
  pub microsecond : ℕ

-- A number that orders datetimes as their fields do, read from the year on.
unfoldable pub instant : Datetime → ℕ
instant d =
    (((((d.year * 13 + d.month) * 32 + d.day) * 24 + d.hour) * 60 + d.minute) * 60 + d.second)
      * 1000000
    + d.microsecond

-- The digits of a number with zeros in front, `width` at least.
unfoldable pub zero_filled : ℕ → ℕ → Text
zero_filled width n = let digits = Decimal.str n in replicate (width - length digits) b'0' ++ digits

-- `d.isoformat()`: the microseconds are left out when they are 0.
unfoldable pub isoformat : Datetime → Text
unfolding zero_filled
isoformat d =
    zero_filled 4 d.year
    ++ codes "-"
    ++ zero_filled 2 d.month
    ++ codes "-"
    ++ zero_filled 2 d.day
    ++ codes "T"
    ++ zero_filled 2 d.hour
    ++ codes ":"
    ++ zero_filled 2 d.minute
    ++ codes ":"
    ++ zero_filled 2 d.second
    ++ (if eqb d.microsecond 0 then [] else codes "." ++ zero_filled 6 d.microsecond)
    ++ codes "+00:00"

pub record NormalizedFlight : Type 0 where
  pub id : Text
  pub provider : Text
  pub airline : Text
  pub origin : Text
  pub destination : Text
  pub departure_time : Datetime
  pub arrival_time : Datetime
  pub duration_minutes : ℕ
  pub stops : ℕ
  pub cabin_class : Text
  pub price : Money

-- `stops == 0`
unfoldable pub is_direct : NormalizedFlight → Bool
is_direct f = eqb f.stops 0

module _ (float : Float) where
  pub record NormalizedHotel : Type 0 where
    pub id : Text
    pub provider : Text
    pub name : Text
    pub city : Text
    pub rating : Float.F float
    pub reviews_count : ℕ
    pub price_per_night : Money
    pub amenities : List Text

-- A date, by its fields.
pub record Date : Type 0 where
  pub year : ℕ
  pub month : ℕ
  pub day : ℕ

pub record FlightSearchQuery : Type 0 where
  pub origin : Text
  pub destination : Text
  pub departure_date : Date
  pub adults : ℕ
  pub cabin_class : Text

pub record HotelSearchQuery : Type 0 where
  pub city : Text
  pub check_in : Date
  pub check_out : Date
  pub guests : ℕ
