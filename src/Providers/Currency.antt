-- ===== src/Providers/Currency.antt =====
-- app/providers/currency.py, and the route of app/api/v1/currency.py over it. `get_json` of the HTTP
-- client is a parameter, on a state of the caller's.
use smart_travel_aggregator.Prelude.{
  ◌≡◌, ap, ◌∙◌, ◌⊎◌, inl, inr, Bool, true, ◌&&◌, Option, none, some, List, [], ◌∷◌, ◌++◌, arith,
  eqb, if◌then◌else◌, Option-cases, nat_eq, list_eq, length, all,
}
use smart_travel_aggregator.Prelude.Text.{Text, codes, upper}
use smart_travel_aggregator.Domain.Floats.{Float}
use smart_travel_aggregator.Domain.Amounts.{is_alpha, is_upper_letter, upper-letters}
use smart_travel_aggregator.Core.Errors.{
  Raised, validation, unexpected, provider_unavailable, error_of,
}
use smart_travel_aggregator.Providers.Payloads.{
  Json, number, text, Reading, get_item, get_or, float_of,
}
use smart_travel_aggregator.Services.AuthService.Sessions.{result-cases}

-- `base_url.rstrip("/")`
unfoldable pub rstrip_slashes : Text → Text
rstrip_slashes [] = []
rstrip_slashes (c ∷ s) =
    let rest = rstrip_slashes s in
    elim rest [ [] ↦ if eqb c b'/' then [] else c ∷ [] | d ∷ t ↦ c ∷ d ∷ t ]

-- `Query(pattern=r"^[A-Za-z]{3}$")`
unfoldable pub is_code : Text → Bool
is_code code = eqb (length code) 3 && all is_alpha code

module _ {float : Float} (reading : Reading float) where
  pub record CurrencyConversion : Type 0 where
    pub base : Text
    pub quote : Text
    pub rate : Float.F float
    pub amount : Float.F float
    pub converted : Float.F float
    pub as_of : Text

  -- The body of the `try` of `_normalize`: the rate, the result and the date.
  unfoldable pub read_payload : Json (Float.F float) → Option (Float.F float × Float.F float × Text)
  read_payload payload = elim (get_item payload (codes "info")) [
    | none ↦ none
    | some info ↦ elim (get_item info (codes "rate")) [
      | none ↦ none
      | some rate_value ↦ elim (float_of reading rate_value) [
        | none ↦ none
        | some rate ↦ elim (get_item payload (codes "result")) [
          | none ↦ none
          | some result ↦ elim (float_of reading result) [
            | none ↦ none
            | some converted ↦
                some (rate, converted, reading.str_of (get_or payload (codes "date") (text [])))
          ]
        ]
      ]
    ]
  ]

  -- The validation of `CurrencyConversion` is outside of the `try`.
  unfoldable pub normalize :
      Json (Float.F float) → Text → Text → Float.F float → Raised ⊎ CurrencyConversion
  normalize payload base quote amount = elim (read_payload payload) [
    | none ↦
        inl
          (error_of provider_unavailable (codes "exchangerate.host returned an unexpected payload"))
    | some (rate, converted, as_of) ↦
        if reading.is_positive rate
        then inr (record {
          base = upper base;
          quote = upper quote;
          rate = rate;
          amount = amount;
          converted = float.round converted 4;
          as_of = as_of;
        })
        else inl (unexpected (codes "ValidationError"))
  ]

  module _ {S : Type 0}
      (get_json : Text
        → List (Text × Json (Float.F float))
        → S
        → S × (Raised ⊎ Json (Float.F float)))
      (base_url : Text) where
    unfoldable pub convert : Text → Text → Float.F float → S → S × (Raised ⊎ CurrencyConversion)
    convert base quote amount s =
        let (after, result) =
          get_json (rstrip_slashes base_url ++ codes "/convert")
            ((codes "from", text (upper base))
              ∷ (codes "to", text (upper quote))
              ∷ (codes "amount", number amount)
              ∷ [])
            s in
        (after, elim result [ inl e ↦ inl e | inr payload ↦ normalize payload base quote amount ])

    -- The route, with the validation of its parameters.
    unfoldable pub convert_currency :
        Text → Text → Float.F float → S → S × (Raised ⊎ CurrencyConversion)
    convert_currency base quote amount s =
        if is_code base && is_code quote && reading.is_positive amount
        then convert base quote amount s
        else (s, inl (validation []))

-- A code that the route lets through becomes three letters in upper case.
is_code-upper :
    (code : Text)
    → is_code code ≡ true
    → (length (upper code) ≡ 3) × (all is_upper_letter (upper code) ≡ true)
unfolding is_code
is_code-upper code h =
    let (size, letters) = upper-letters code (ground arith) in (size ∙ ground arith, letters)

module _ {float : Float} (reading : Reading float) {S : Type 0}
    (get_json : Text → List (Text × Json (Float.F float)) → S → S × (Raised ⊎ Json (Float.F float)))
    (base_url : Text) where
  normalize_sound :
      (payload : Json (Float.F float)) (base quote : Text) (amount : Float.F float)
      (c : CurrencyConversion reading)
      → normalize reading payload base quote amount ≡ inr c
      → (c.base ≡ upper base)
        × (c.quote ≡ upper quote)
        × (c.amount ≡ amount)
        × (reading.is_positive c.rate ≡ true)
  unfolding normalize
  normalize_sound payload base quote amount c h =
      elim (Option-cases (read_payload reading payload)) [
        | inl bad ↦ absurd (ground (arith, bad))
        | inr ((rate, converted, as_of), good) ↦
            (ground (arith, good), ground (arith, good), ground (arith, good), ground (arith, good))
      ]

  convert_currency_lem :
      (base quote : Text) (amount : Float.F float) (s : S) (c : CurrencyConversion reading)
      → (convert_currency reading get_json base_url base quote amount s).1 ≡ inr c
      → (is_code base ≡ true)
        × (is_code quote ≡ true)
        × ((payload : Json (Float.F float)) × (normalize reading payload base quote amount ≡ inr c))
  unfolding convert_currency convert
  convert_currency_lem base quote amount s c h =
      let asked =
        get_json (rstrip_slashes base_url ++ codes "/convert")
          ((codes "from", text (upper base))
            ∷ (codes "to", text (upper quote))
            ∷ (codes "amount", number amount)
            ∷ [])
          s in
      let valid : (is_code base && is_code quote && reading.is_positive amount) ≡ true =
        ground arith in
      elim (result-cases asked.1) [
        | inl (e, bad) ↦ absurd (ground (arith, bad, valid))
        | inr (payload, good) ↦
            (ground (arith, valid), ground (arith, valid), (payload, ground (arith, good, valid)))
      ]

  -- A conversion that the route answers with has two currencies of three letters in upper case, those
  -- asked for, the amount asked for, and a positive rate: whatever the payload of the provider.
  pub convert_currency_sound :
      (base quote : Text) (amount : Float.F float) (s : S) (c : CurrencyConversion reading)
      → (convert_currency reading get_json base_url base quote amount s).1 ≡ inr c
      → (c.base ≡ upper base)
        × (c.quote ≡ upper quote)
        × (length c.base ≡ 3)
        × (all is_upper_letter c.base ≡ true)
        × (length c.quote ≡ 3)
        × (all is_upper_letter c.quote ≡ true)
        × (c.amount ≡ amount)
        × (reading.is_positive c.rate ≡ true)
  convert_currency_sound base quote amount s c h =
      let (from, to, (payload, made)) = convert_currency_lem base quote amount s c h in
      let (is_base, is_quote, is_amount, positive) =
        normalize_sound payload base quote amount c made in
      let base_code = is_code-upper base from in
      let quote_code = is_code-upper quote to in
      (
        is_base,
        is_quote,
        ap length is_base ∙ base_code.0,
        ap (all is_upper_letter) is_base ∙ base_code.1,
        ap length is_quote ∙ quote_code.0,
        ap (all is_upper_letter) is_quote ∙ quote_code.1,
        is_amount,
        positive,
      )
