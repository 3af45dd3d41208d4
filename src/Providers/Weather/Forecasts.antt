-- ===== src/Providers/Weather/Forecasts.antt =====
-- What a forecast of app/providers/weather.py says, whatever the payload.
use smart_travel_aggregator.Prelude.{
  ℕ, ◌≤◌, ◌≡◌, refl, subst, ◌⊎◌, inl, inr, true, ◌&&◌, Option, none, some, List, [], ◌∷◌, ◌++◌,
  arith, Bool-cases, Option-cases, nat_eq, list_eq,
}
use smart_travel_aggregator.Prelude.Text.{Text, codes}
use smart_travel_aggregator.Domain.{Date}
use smart_travel_aggregator.Domain.Floats.{Float}
use smart_travel_aggregator.Core.Errors.{Raised}
use smart_travel_aggregator.Providers.Payloads.{
  get_item, Json, Integer, integer, value_error, overflow_error, clamp, pos, negsuc, ℤ, Reading,
  object,
}
use smart_travel_aggregator.Providers.Sampling.{str_of_date}
use smart_travel_aggregator.Providers.Currency.{rstrip_slashes}
use smart_travel_aggregator.Providers.Weather.{
  forecast_params, is_within, humidity_of, WeatherForecast, first_float, first_int, readings_of,
  mean_percent, column, mean_humidity, normalize, forecast, get_weather,
}
use smart_travel_aggregator.Services.AuthService.Sessions.{result-cases}

clamp-le : (n : ℤ) → clamp n ≤ 100
clamp-le (pos n) = omega arith
clamp-le (negsuc n) = omega arith

module _ {float : Float} (reading : Reading float) where
  mean_percent-le : (xs : List (Float.F float)) (n : ℕ) → mean_percent reading xs ≡ some n → n ≤ 100
  unfolding mean_percent
  mean_percent-le [] n h = ground arith
  mean_percent-le (x ∷ xs) n h = percent (reading.round_int (reading.fmean (x ∷ xs))) h
    where
      percent :
          (i : Integer)
          → elim i as (λ x. Option ℕ) [
            | integer k ↦ some (clamp k)
            | value_error ↦ none
            | overflow_error ↦ none
          ]
            ≡ some n
          → n ≤ 100
      percent (integer k) e = ground (arith, clamp-le k)
      percent value_error e = absurd (ground arith)
      percent overflow_error e = absurd (ground arith)

  humidity_of-le :
      (hourly : Json (Float.F float)) (iso_day : Text) (n : ℕ)
      → humidity_of reading hourly iso_day ≡ some n
      → n ≤ 100
  unfolding humidity_of
  humidity_of-le (object members) iso_day n h =
      elim (Option-cases (column reading (object members) (codes "time"))) [
        | inl bad ↦ absurd (ground (arith, bad))
        | inr (times, good) ↦
            elim (Option-cases (column reading (object members) (codes "relative_humidity_2m"))) [
              | inl bad ↦ absurd (ground (arith, good, bad))
              | inr (values, good2) ↦
                  elim (Option-cases (readings_of reading iso_day times values)) [
                    | inl bad ↦ absurd (ground (arith, good, good2, bad))
                    | inr (xs, good3) ↦ mean_percent-le xs n (ground (arith, good, good2, good3))
                  ]
            ]
      ]
  humidity_of-le hourly iso_day n h = absurd (ground arith)

  -- For the place and the day asked for, with percentages that are ones, and a wind that is not
  -- negative.
  abbrev pub IsForecast : Float.F float → Float.F float → Text → WeatherForecast reading → Type 0
  IsForecast latitude longitude iso_day w =
      (w.latitude ≡ latitude)
      × (w.longitude ≡ longitude)
      × (w.date ≡ iso_day)
      × (w.precipitation_probability ≤ 100)
      × (float.le (float.of_int 0) w.wind_kph ≡ true)
      × (w.humidity ≤ 100)

  normalize-IsForecast :
      (payload : Json (Float.F float)) (latitude longitude : Float.F float) (iso_day : Text)
      (w : WeatherForecast reading)
      → normalize reading payload latitude longitude iso_day ≡ inr w
      → IsForecast latitude longitude iso_day w
  unfolding normalize mean_humidity
  normalize-IsForecast payload latitude longitude iso_day w h =
      elim (Option-cases (get_item payload (codes "daily"))) [
        | inl bad ↦ absurd (ground (arith, bad))
        | inr (daily, d) ↦
            elim (Option-cases (first_float reading daily (codes "temperature_2m_max"))) [
              | inl bad ↦ absurd (ground (arith, d, bad))
              | inr (temperature, t) ↦
                  elim (Option-cases
                    (first_int reading daily (codes "precipitation_probability_max"))) [
                      | inl bad ↦ absurd (ground (arith, d, t, bad))
                      | inr (value_error, p) ↦ absurd (ground (arith, d, t, p))
                      | inr (overflow_error, p) ↦ absurd (ground (arith, d, t, p))
                      | inr (integer rain, p) ↦
                          elim (Option-cases
                            (first_float reading daily (codes "wind_speed_10m_max"))) [
                              | inl bad ↦ absurd (ground (arith, d, t, p, bad))
                              | inr (wind, v) ↦
                                  elim (Option-cases (mean_humidity reading payload iso_day)) [
                                    | inl bad ↦ absurd (ground (arith, d, t, p, v, bad))
                                    | inr (humidity, m) ↦
                                        elim (Bool-cases
                                          (float.le (float.of_int 0) (float.round wind 1))) [
                                            | inr bad ↦ absurd (ground (arith, d, t, p, v, m, bad))
                                            | inl calm ↦
                                                let built : WeatherForecast reading = record {
                                                  latitude = latitude;
                                                  longitude = longitude;
                                                  date = iso_day;
                                                  temperature_c = float.round temperature 1;
                                                  precipitation_probability = clamp rain;
                                                  wind_kph = float.round wind 1;
                                                  humidity = humidity;
                                                } in
                                                let made : built ≡ w =
                                                  ground (arith, d, t, p, v, m, calm) in
                                                subst (IsForecast latitude longitude iso_day) made (
                                                  refl,
                                                  refl,
                                                  refl,
                                                  clamp-le rain,
                                                  calm,
                                                  humidity_of-le _ iso_day humidity m,
                                                )
                                          ]
                                  ]
                            ]
                    ]
            ]
      ]

  module _ {S : Type 0}
      (get_json : Text
        → List (Text × Json (Float.F float))
        → S
        → S × (Raised ⊎ Json (Float.F float)))
      (base_url : Text) where
    forecast_lem :
        (latitude longitude : Float.F float) (day : Date) (s : S) (w : WeatherForecast reading)
        → (forecast reading get_json base_url latitude longitude day s).1 ≡ inr w
        → (payload : Json (Float.F float)) × (normalize reading payload latitude longitude
              (str_of_date day)
            ≡ inr w)
    unfolding forecast
    forecast_lem latitude longitude day s w h =
        elim (result-cases
          (get_json (rstrip_slashes base_url ++ codes "/forecast")
            (forecast_params reading latitude longitude (str_of_date day)) s).1) [
              | inl (e, bad) ↦ absurd (ground (arith, bad))
              | inr (payload, good) ↦ (payload, ground (arith, good))
            ]

    -- A forecast that the route answers with is for the place and the day asked for, its percentages
    -- are at most 100 and its wind is not negative, whatever the payload of the provider; and the place is
    -- on the globe.
    pub get_weather-IsForecast :
        (latitude longitude : Float.F float) (day : Date) (s : S) (w : WeatherForecast reading)
        → (get_weather reading get_json base_url latitude longitude day s).1 ≡ inr w
        → IsForecast latitude longitude (str_of_date day) w
          × (is_within reading get_json base_url 90 latitude ≡ true)
          × (is_within reading get_json base_url 180 longitude ≡ true)
    unfolding get_weather
    get_weather-IsForecast latitude longitude day s w h =
        let within : (is_within reading get_json base_url 90 latitude
              && is_within reading get_json base_url 180 longitude)
            ≡ true =
          ground arith in
        let (payload, made) = forecast_lem latitude longitude day s w (ground (arith, within)) in
        (
          normalize-IsForecast payload latitude longitude (str_of_date day) w made,
          ground (arith, within),
          ground (arith, within),
        )
