-- ===== src/Method/RoundTrip/Stretched.antt =====
-- A password that is stretched by the parameters of a slot, when it is enrolled and when it is
-- opened.
use go_tumbler.Base.{ℕ, ◌≡◌, ap, ◌∙◌, none, some, Bytes}
use go_tumbler.Combine.{Crypto}
use go_tumbler.Errors.{ok}
use go_tumbler.Kdf.{Kdf, kdf_id, marshal_params, parse_kdf}
use go_tumbler.Kdf.Bounds.{WithinBounds}
use go_tumbler.Kdf.Derive.{derive, derive-Yields, stretch}
use go_tumbler.Kdf.RoundTrip.{parse_kdf-marshal_params}
use go_tumbler.Method.Password.{derive_password_key}
use go_tumbler.Method.RoundTrip.{derived-ok}
use go_tumbler.Method.RoundTrip.Shaped.{IsShaped}
use go_tumbler.Method.{SlotShape}
use go_tumbler.Secure.Container.{new, borrow}
use go_tumbler.Secure.Frame.{Fresh}
use go_tumbler.Secure.Returns.{ran-Holds, Returns, Holds, alive, new-Returns}
use go_tumbler.Secure.World.{World, System, lift, ◌>>=◌}
use go_tumbler.Slot.{Slot}

module _ (os : System) (c : Crypto) where
  derive-Returns :
      (k : Kdf) (password : ℕ) (pw salt raw : Bytes) (w : World)
      → w.cell password ≡ alive pw
      → os.mlock w.tick ≡ none
      → stretch c k pw salt ≡ ok raw
      → Returns raw (derive os c k password salt w)
  unfolding derive borrow
  derive-Returns k password pw salt raw w cell locks stretched =
      rw (cell, stretched) (new-Returns os raw w locks)

  -- Where the key was derived, the password was stretched to it.
  derive-stretched :
      (k : Kdf) (password : ℕ) (pw salt : Bytes) (w v : World) (h : ℕ)
      → w.cell password ≡ alive pw
      → derive os c k password salt w ≡ (ok h, v)
      → (raw : Bytes) × (stretch c k pw salt ≡ ok raw)
  unfolding derive borrow
  derive-stretched k password pw salt w v h cell e =
      let e' : (lift (stretch c k pw salt) >>= λ raw. new os raw) w ≡ (ok h, v) = rw cell at e in
      derived-ok (lift (stretch c k pw salt) w) _ e'
        λ raw u stretched _. (raw, ap (λ r. r.0) stretched)

  module _ (locks : (t : ℕ) → os.mlock t ≡ none) where
    -- The step of an enrollment that stretches the password.
    pub derive-Holds :
        (k : Kdf) (password : ℕ) (pw salt : Bytes) (u v : World) (h : ℕ)
        → Holds u password pw
        → derive os c k password salt u ≡ (ok h, v)
        → (raw : Bytes) × (stretch c k pw salt ≡ ok raw) × Fresh u h v × Holds v h raw
    derive-Holds k password pw salt u v h at_pw e =
        let (raw, stretched) = derive-stretched k password pw salt u v h at_pw.1 e in
        let (fresh, at_key) =
          ran-Holds (derive os c k password salt) raw u v h (derive-Yields os c k password salt)
            (derive-Returns k password pw salt raw u at_pw.1 (locks u.tick) stretched) e in
        (raw, stretched, fresh, at_key)

  -- The slot keeps the parameters by which `pw` was stretched to `raw`.
  pub record IsStretched (s : Slot) (k : Kdf) (pw raw : Bytes) : Type 0 where
    pub id : s.kdf_id ≡ kdf_id k
    pub params : s.kdf_params ≡ marshal_params k
    pub stretched : stretch c k pw s.kdf_salt ≡ ok raw

  pub shape-IsStretched :
      (s : Slot) (sh : SlotShape) (k : Kdf) (pw raw : Bytes)
      → IsShaped os sh s
      → sh.kdf_id ≡ kdf_id k
      → sh.kdf_params ≡ marshal_params k
      → stretch c k pw sh.kdf_salt ≡ ok raw
      → IsStretched s k pw raw
  shape-IsStretched s sh k pw raw shape e1 e2 e3 = record {
    id = shape.kdf_id ∙ e1;
    params = shape.kdf_params ∙ e2;
    stretched = ap (stretch c k pw) shape.kdf_salt ∙ e3;
  }

  -- The same password gives the same key from the slot alone.
  pub derive_password_key-Returns :
      (s : Slot) (k : Kdf) (password : ℕ) (pw raw : Bytes) (u : World)
      → WithinBounds k
      → IsStretched s k pw raw
      → Holds u password pw
      → os.mlock u.tick ≡ none
      → Returns raw (derive_password_key os c s password u)
  unfolding derive_password_key
  derive_password_key-Returns s k password pw raw u within p at_pw locks =
      let parsed : parse_kdf s.kdf_id s.kdf_params ≡ ok (some k) =
        ap (λ x. parse_kdf x s.kdf_params) p.id
        ∙ ap (parse_kdf (kdf_id k)) p.params
        ∙ parse_kdf-marshal_params k within in
      rw parsed (derive-Returns k password pw s.kdf_salt raw u at_pw.1 locks p.stretched)
