-- ===== src/Channels/Agreement.antt =====
-- The names that a channel and its origin have, from a payload kind and from the stored measurement.
use meshtastic_things.Prelude.{
  String, false, ◌≡◌, ◌∙◌, sym, ap, inl, inr, refl, Option, some, [], ◌∷◌, fstring, split_colon,
  str_eq, eq_iff, arith, Bool-cases,
}
use meshtastic_things.Prelude.Numerals.{split_colon-append}
use meshtastic_things.Channels.{
  channel_name, measurement_of, namespace_of, origin_of, origin_of_measurement, telemetry, derived,
  quality, origin_measured,
}

-- The payload kind that the decoder gives a telemetry variant.
abbrev pub variant_kind : String → String
variant_kind variant = fstring (telemetry ∷ ":" ∷ variant ∷ [])

split-variant : (variant : String) → split_colon (variant_kind variant) ≡ (telemetry, some variant)
split-variant variant =
    split_colon-append telemetry variant
      (refl, (refl, (refl, (refl, (refl, (refl, (refl, (refl, (refl, tt)))))))))

differ : (variant : String) → (telemetry, some variant) ≡ split_colon "" → ⊥
unfolding split_colon
differ variant e = ground (arith, ap (λ (x : String × Option String). x.1) e)

variant_kind-nonempty : (variant : String) → str_eq (variant_kind variant) "" ≡ false
variant_kind-nonempty variant = elim (Bool-cases (str_eq (variant_kind variant) "")) [
  | inl same ↦
      let e : split_colon (variant_kind variant) ≡ split_colon "" =
        ap split_colon ((eq_iff _ "").0 same) in
      absurd (differ variant (sym (split-variant variant) ∙ e))
  | inr other ↦ other
]

measurement_of-variant : (variant : String) → measurement_of (variant_kind variant) ≡ variant
unfolding measurement_of
measurement_of-variant variant = simp (variant_kind-nonempty variant, split-variant variant) refl

namespace_of-variant : (variant : String) → namespace_of (variant_kind variant) ≡ telemetry
unfolding namespace_of
namespace_of-variant variant = ap (λ (x : String × Option String). x.0) (split-variant variant)

pub channel_name-variant :
    (variant field_name : String)
    → channel_name (variant_kind variant) field_name ≡ fstring (variant ∷ "." ∷ field_name ∷ [])
unfolding channel_name
channel_name-variant variant field_name = rw (measurement_of-variant variant) refl

pub origin_of-variant : (variant : String) → origin_of (variant_kind variant) ≡ origin_measured
unfolding origin_of
origin_of-variant variant = rw (namespace_of-variant variant) refl

pub origin_of_measurement-measured :
    (measurement : String)
    → str_eq measurement derived ≡ false
    → str_eq measurement quality ≡ false
    → origin_of_measurement measurement ≡ origin_measured
unfolding origin_of_measurement
origin_of_measurement-measured measurement not_derived not_quality =
    simp (not_derived, not_quality) refl
