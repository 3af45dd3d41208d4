-- ===== src/Providers/Weather.antt =====
-- app/providers/weather.py, and the route of app/api/v1/weather.py over it. `get_json` of the HTTP
-- client is a parameter, on a state of the caller's.
pub mod Forecasts
use smart_travel_aggregator.Prelude.{
  ℕ, ◌⊎◌, inl, inr, Bool, true, false, ◌&&◌, not, Option, none, some, List, [], ◌∷◌, ◌++◌, eqb,
  if◌then◌else◌, nat_eq, list_eq,
}
use smart_travel_aggregator.Prelude.Text.{Text, codes}
use smart_travel_aggregator.Domain.{Date}
use smart_travel_aggregator.Domain.Floats.{Float}
use smart_travel_aggregator.Core.Errors.{
  Raised, validation, unexpected, provider_unavailable, error_of,
}
use smart_travel_aggregator.Providers.Payloads.{
  bool, Json, null, number, text, object, no_fields, array, no_items, Integer, integer, value_error,
  overflow_error, clamp, Reading, get_item, get_first, get_or, float_of, int_or_zero, is_truthy,
  iterate,
}
use smart_travel_aggregator.Providers.Currency.{rstrip_slashes}
use smart_travel_aggregator.Providers.Sampling.{str_of_date}

-- `stamp.startswith(iso_day)`
unfoldable pub starts_with : Text → Text → Bool
starts_with [] s = true
starts_with (c ∷ prefix) [] = false
starts_with (c ∷ prefix) (d ∷ s) = if eqb c d then starts_with prefix s else false

module _ {float : Float} (reading : Reading float) where
  pub record WeatherForecast : Type 0 where
    pub latitude : Float.F float
    pub longitude : Float.F float
    pub date : Text
    pub temperature_c : Float.F float
    pub precipitation_probability : ℕ
    pub wind_kph : Float.F float
    pub humidity : ℕ

  -- `value or default`
  abbrev pub or_default : Json (Float.F float) → Json (Float.F float) → Json (Float.F float)
  or_default value default = if is_truthy reading value then value else default

  -- `float(daily[key][0])`, with `none` for an exception that is caught.
  unfoldable pub first_float : Json (Float.F float) → Text → Option (Float.F float)
  first_float daily key = elim (get_item daily key) [
    | none ↦ none
    | some values ↦ elim (get_first values) [ none ↦ none | some value ↦ float_of reading value ]
  ]

  -- `int(daily[key][0] or 0)`, with `none` for a `KeyError`, an `IndexError` or a `TypeError`.
  unfoldable pub first_int : Json (Float.F float) → Text → Option Integer
  first_int daily key = elim (get_item daily key) [
    | none ↦ none
    | some values ↦ elim (get_first values) [ none ↦ none | some value ↦ int_or_zero reading value ]
  ]

  -- The comprehension over the pairs of a stamp and a value, with `none` for an exception.
  unfoldable pub readings_of :
      Text
      → List (Json (Float.F float))
      → List (Json (Float.F float))
      → Option (List (Float.F float))
  readings_of iso_day [] values = some []
  readings_of iso_day (stamp ∷ times) [] = some []
  readings_of iso_day (text stamp ∷ times) (null ∷ values) = readings_of iso_day times values
  readings_of iso_day (text stamp ∷ times) (value ∷ values) =
      let rest = readings_of iso_day times values in
      if not (starts_with iso_day stamp) then rest else elim (float_of reading value) [
        | none ↦ none
        | some x ↦ elim rest [ none ↦ none | some xs ↦ some (x ∷ xs) ]
      ]
  readings_of iso_day (stamp ∷ times) (value ∷ values) = none

  -- `max(0, min(100, round(fmean(readings))))`, and 0 without readings.
  unfoldable pub mean_percent : List (Float.F float) → Option ℕ
  mean_percent [] = some 0
  mean_percent (x ∷ xs) = elim (reading.round_int (reading.fmean (x ∷ xs))) [
    | integer n ↦ some (clamp n)
    | value_error ↦ none
    | overflow_error ↦ none
  ]

  -- `hourly.get(key) or []`, iterated.
  unfoldable pub column : Json (Float.F float) → Text → Option (List (Json (Float.F float)))
  column hourly key = iterate (or_default (get_or hourly key null) (array no_items))

  -- `_mean_humidity`, from `hourly` on, with `none` for an exception, none of which is caught.
  unfoldable pub humidity_of : Json (Float.F float) → Text → Option ℕ
  humidity_of (object members) iso_day = elim (column (object members) (codes "time")) [
    | none ↦ none
    | some times ↦ elim (column (object members) (codes "relative_humidity_2m")) [
      | none ↦ none
      | some values ↦ elim (readings_of iso_day times values) [
        | none ↦ none
        | some readings ↦ mean_percent readings
      ]
    ]
  ]
  humidity_of hourly iso_day = none

  unfoldable pub mean_humidity : Json (Float.F float) → Text → Option ℕ
  mean_humidity payload iso_day =
      humidity_of (or_default (get_or payload (codes "hourly") null) (object no_fields)) iso_day

  -- `_normalize`: what the `try` reads, then the humidity and the validation, which are outside of it.
  unfoldable pub normalize :
      Json (Float.F float) → Float.F float → Float.F float → Text → Raised ⊎ WeatherForecast
  normalize payload latitude longitude iso_day =
      let refused =
        error_of provider_unavailable (codes "open-meteo returned an unexpected payload") in
      elim (get_item payload (codes "daily")) [
        | none ↦ inl refused
        | some daily ↦ elim (first_float daily (codes "temperature_2m_max")) [
          | none ↦ inl refused
          | some temperature ↦ elim (first_int daily (codes "precipitation_probability_max")) [
            | none ↦ inl refused
            | some value_error ↦ inl refused
            | some overflow_error ↦ inl (unexpected (codes "OverflowError"))
            | some (integer precipitation) ↦ elim (first_float daily (codes "wind_speed_10m_max")) [
              | none ↦ inl refused
              | some wind ↦ elim (mean_humidity payload iso_day) [
                | none ↦ inl (unexpected (codes "the hourly readings"))
                | some humidity ↦
                    if not (float.le (float.of_int 0) (float.round wind 1))
                    then inl (unexpected (codes "ValidationError"))
                    else inr (record {
                      latitude = latitude;
                      longitude = longitude;
                      date = iso_day;
                      temperature_c = float.round temperature 1;
                      precipitation_probability = clamp precipitation;
                      wind_kph = float.round wind 1;
                      humidity = humidity;
                    })
              ]
            ]
          ]
        ]
      ]

  abbrev pub forecast_params :
      Float.F float → Float.F float → Text → List (Text × Json (Float.F float))
  forecast_params latitude longitude iso_day =
      (codes "latitude", number latitude)
      ∷ (codes "longitude", number longitude)
      ∷ (
        codes "daily",
        text (codes "temperature_2m_max,precipitation_probability_max,wind_speed_10m_max"),
      )
      ∷ (codes "hourly", text (codes "relative_humidity_2m"))
      ∷ (codes "start_date", text iso_day)
      ∷ (codes "end_date", text iso_day)
      ∷ (codes "timezone", text (codes "UTC"))
      ∷ []

  module _ {S : Type 0}
      (get_json : Text
        → List (Text × Json (Float.F float))
        → S
        → S × (Raised ⊎ Json (Float.F float)))
      (base_url : Text) where
    unfoldable pub forecast :
        Float.F float → Float.F float → Date → S → S × (Raised ⊎ WeatherForecast)
    forecast latitude longitude day s =
        let iso_day = str_of_date day in
        let (after, result) =
          get_json (rstrip_slashes base_url ++ codes "/forecast")
            (forecast_params latitude longitude iso_day) s in
        (
          after,
          elim result [
            | inl e ↦ inl e
            | inr payload ↦ normalize payload latitude longitude iso_day
          ],
        )

    -- `-limit <= x <= limit`
    abbrev pub is_within : ℕ → Float.F float → Bool
    is_within limit x =
        float.le (float.neg (float.of_int limit)) x && float.le x (float.of_int limit)

    -- The route, with the validation of its parameters.
    unfoldable pub get_weather :
        Float.F float → Float.F float → Date → S → S × (Raised ⊎ WeatherForecast)
    get_weather latitude longitude day s =
        if is_within 90 latitude && is_within 180 longitude
        then forecast latitude longitude day s
        else (s, inl (validation []))
