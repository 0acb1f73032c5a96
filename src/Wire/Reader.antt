-- ===== src/Wire/Reader.antt =====
-- The `reader` of envelope.go: a forward cursor that refuses to read past its buffer.
use go_tumbler.Base.{ℕ, ◌+◌, not, Bytes, length, take, drop, get_or, ltb}
use go_tumbler.Base.Binary.{uint16, uint32}
use go_tumbler.Errors.{malformed, short_data, Result, ok, ◌>>=◌, ◌>>◌, guard}

pub record Reader : Type 0 where
  pub b : Bytes
  pub off : ℕ

unfoldable pub u8 : Reader → Result (ℕ × Reader)
u8 r = do
  guard (not (ltb (length r.b) (r.off + 1))) short_data
  ok (get_or r.b r.off 0, record r { off = r.off + 1 })

unfoldable pub u16 : Reader → Result (ℕ × Reader)
u16 r = do
  guard (not (ltb (length r.b) (r.off + 2))) short_data
  ok (uint16 (drop r.off r.b), record r { off = r.off + 2 })

unfoldable pub u32 : Reader → Result (ℕ × Reader)
u32 r = do
  guard (not (ltb (length r.b) (r.off + 4))) short_data
  ok (uint32 (drop r.off r.b), record r { off = r.off + 4 })

-- `take`: every caller passes a length that is not negative.
unfoldable pub take_bytes : ℕ → Reader → Result (Bytes × Reader)
take_bytes n r = do
  guard (not (ltb (length r.b) (r.off + n))) short_data
  ok (take n (drop r.off r.b), record r { off = r.off + n })

unfoldable pub take_u16 : ℕ → Reader → Result (Bytes × Reader)
unfolding u16 take_bytes
take_u16 max_len r = do (n, r') ← u16 r; guard (not (ltb max_len n)) malformed; take_bytes n r'
