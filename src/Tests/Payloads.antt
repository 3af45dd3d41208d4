-- ===== src/Tests/Payloads.antt =====
-- A forecast and a conversion from concrete payloads, in whole numbers.
use smart_travel_aggregator.Prelude.{
  ℕ, zero, suc, ◌+◌, ◌-◌, ◌*◌, ◌/◌, ◌%◌, ◌^◌, ◌≤◌, ◌<◌, min, max, ◌≡◌, refl, sym, ap, ◌∙◌, subst,
  ◌≢◌, ◌↔◌, ◌⊎◌, inl, inr, Bool, true, false, ◌&&◌, ◌||◌, not, Option, none, some, List, [], ◌∷◌,
  ◌++◌, map, arith, ltb, leb, eqb, if◌then◌else◌, ltb→lt, lt→ltb, leb→le, le→leb, eqb_iff,
  Bool-cases, Option-cases, is_some, Eq, ◌==◌, ==_refl, nat_eq, list_eq, length, take, drop, filter,
  any, all, All, length-append, length-take, length-drop, take-append-drop, length-filter-le,
  filter-append, All-append, All-imp, All-both, All-filter, filter-All, length-map, All-map,
  All-reverse, replicate,
}
use smart_travel_aggregator.Prelude.Text.{Text, codes, upper}
use smart_travel_aggregator.Domain.{Date}
use smart_travel_aggregator.Domain.Amounts.{is_upper_letter}
use smart_travel_aggregator.Core.Errors.{Raised}
use smart_travel_aggregator.Providers.Payloads.{
  Json, number, text, object, array, item, no_items, field, no_fields, Reading, integer, pos,
  value_error,
}
use smart_travel_aggregator.Providers.Currency.{
  CurrencyConversion, convert_currency, convert_currency_sound,
}
use smart_travel_aggregator.Providers.Sampling.{str_of_date}
use smart_travel_aggregator.Providers.Weather.{WeatherForecast, get_weather, is_within}
use smart_travel_aggregator.Providers.Weather.Forecasts.{IsForecast, get_weather-IsForecast}
use smart_travel_aggregator.Tests.Samples.{Whole, whole_floats}

abbrev first_of : List Whole → Whole
first_of [] = (0, 0)
first_of (x ∷ xs) = x

abbrev whole_reading : Reading whole_floats
whole_reading = record {
  float_of_text = λ s. none;
  str_of = λ value. codes "2026-09-01";
  int_of_float = λ (a, b). integer (pos (a - b));
  int_of_text = λ s. value_error;
  round_int = λ (a, b). integer (pos (a - b));
  fmean = first_of;
  is_zero = λ (a, b). eqb a b;
  is_positive = λ (a, b). ltb b a;
}

abbrev whole : ℕ → Json Whole
whole n = number (n, 0)

abbrev one_item : Json Whole → Json Whole
one_item value = array (item value no_items)

abbrev rates : Json Whole
rates = object (
    field (codes "info") (object (field (codes "rate") (whole 2) no_fields))
      (field (codes "result") (whole 14) no_fields))

-- What the network answers, whatever is asked.
abbrev answering : Json Whole → Text → List (Text × Json Whole) → ℕ → ℕ × (Raised ⊎ Json Whole)
answering payload url params n = (n + 1, inr payload)

abbrev conversion : CurrencyConversion whole_reading
conversion = record {
  base = codes "EUR";
  quote = codes "USD";
  rate = (2, 0);
  amount = (7, 0);
  converted = (14, 0);
  as_of = codes "2026-09-01";
}

conversion_made :
    (convert_currency whole_reading
      (answering rates)
      (codes "https://x.org/")
      (codes "eur")
      (codes "usd")
      (7, 0)
      0).1
    ≡ inr conversion
unfolding convert_currency smart_travel_aggregator.Providers.Currency.is_code
    smart_travel_aggregator.Domain.Amounts.is_alpha
    smart_travel_aggregator.Providers.Currency.convert
    smart_travel_aggregator.Providers.Currency.normalize
    smart_travel_aggregator.Providers.Currency.read_payload
    smart_travel_aggregator.Providers.Payloads.get_item
    smart_travel_aggregator.Providers.Payloads.lookup
    smart_travel_aggregator.Providers.Payloads.float_of upper
conversion_made = refl

abbrev day : Date
day = record { year = 2026; month = 9; day = 1 }

abbrev weather : Json Whole
weather = object (
    field (codes "daily")
      (object (
        field (codes "temperature_2m_max") (one_item (whole 21)) (
          field (codes "precipitation_probability_max") (one_item (whole 140))
            (field (codes "wind_speed_10m_max") (one_item (whole 9)) no_fields))))
      (field (codes "hourly")
        (object (
          field (codes "time") (one_item (text (codes "2026-09-01T00:00")))
            (field (codes "relative_humidity_2m") (one_item (whole 55)) no_fields)))
        no_fields))

abbrev sunny : WeatherForecast whole_reading
sunny = record {
  latitude = (50, 0);
  longitude = (8, 0);
  date = codes "2026-09-01";
  temperature_c = (21, 0);
  precipitation_probability = 100;
  wind_kph = (9, 0);
  humidity = 55;
}

forecasted :
    (get_weather whole_reading (answering weather) (codes "https://x.org") (50, 0) (8, 0) day 0).1
    ≡ inr sunny
unfolding get_weather smart_travel_aggregator.Providers.Weather.forecast
    smart_travel_aggregator.Providers.Weather.normalize
    smart_travel_aggregator.Providers.Payloads.get_item
    smart_travel_aggregator.Providers.Payloads.lookup
    smart_travel_aggregator.Providers.Weather.first_float
    smart_travel_aggregator.Providers.Payloads.get_first
    smart_travel_aggregator.Providers.Payloads.float_of
    smart_travel_aggregator.Providers.Weather.first_int
    smart_travel_aggregator.Providers.Payloads.int_or_zero
    smart_travel_aggregator.Providers.Payloads.is_truthy
    smart_travel_aggregator.Providers.Weather.mean_humidity
    smart_travel_aggregator.Providers.Weather.humidity_of
    smart_travel_aggregator.Providers.Payloads.get_or
    smart_travel_aggregator.Providers.Weather.column
    smart_travel_aggregator.Providers.Payloads.iterate
    smart_travel_aggregator.Providers.Weather.readings_of
    smart_travel_aggregator.Providers.Currency.rstrip_slashes
    smart_travel_aggregator.Providers.Payloads.items
    smart_travel_aggregator.Providers.Payloads.names str_of_date
    smart_travel_aggregator.Providers.Weather.mean_percent
    smart_travel_aggregator.Providers.Weather.starts_with smart_travel_aggregator.Domain.zero_filled
    smart_travel_aggregator.Prelude.Decimal.str
forecasted = refl

get_weather-IsForecast_example :
    IsForecast whole_reading (50, 0) (8, 0) (str_of_date day) sunny
    × (is_within whole_reading (answering weather) (codes "https://x.org") 90 (50, 0) ≡ true)
    × (is_within whole_reading (answering weather) (codes "https://x.org") 180 (8, 0) ≡ true)
get_weather-IsForecast_example =
    get_weather-IsForecast whole_reading (answering weather) (codes "https://x.org") (50, 0) (8, 0)
      day 0 sunny forecasted
