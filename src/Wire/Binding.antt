-- ===== src/Wire/Binding.antt =====
-- The metadata as associated data: what a slot's wrapped key is bound to.
use go_tumbler.Base.{[], ◌++◌, ◌≡◌, sym, ap, ◌∙◌}
use go_tumbler.Errors.{ok, ok-injective}
use go_tumbler.Slot.{Slot}
use go_tumbler.Wire.Cursor.{at}
use go_tumbler.Wire.Fields.{IsMeta, unsealed, marshal_meta-IsMeta, parse_fields-meta_bytes}
use go_tumbler.Wire.Marshal.{marshal_meta, meta_bytes}
use go_tumbler.Wire.Parse.{parse_fields}

read_back :
    (s : Slot)
    → IsMeta s
    → parse_fields (at [] (meta_bytes s ++ [])) ≡ ok (unsealed s, at ([] ++ meta_bytes s) [])
read_back s h = parse_fields-meta_bytes [] [] s h

-- Two slots whose metadata the format can express and has the same bytes agree in every field but
-- the wrapped key and the stored metadata.
pub marshal_meta-injective :
    (s t : Slot) → IsMeta s → IsMeta t → marshal_meta s ≡ marshal_meta t → unsealed s ≡ unsealed t
marshal_meta-injective s t h k e =
    let same : meta_bytes s ≡ meta_bytes t =
      ok-injective (sym (marshal_meta-IsMeta s h) ∙ e ∙ marshal_meta-IsMeta t k) in
    ap (λ p. p.0)
      (ok-injective
        (sym (read_back s h) ∙ ap (λ b. parse_fields (at [] (b ++ []))) same ∙ read_back t k))
