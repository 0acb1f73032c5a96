-- ===== src/Secure/Vault.antt =====
-- What containers promise: numbered payloads that can be read until they are wiped. The contract
-- forgets locking, the calls of the system and the buffers; which calls are refused is left open.
use go_tumbler.Base.{
  ℕ, ℤ, pos, negsuc, ◌+◌, ◌<◌, ◌≡◌, refl, Option, none, some, List, [], ◌∷◌, Bytes, length,
  replicate, ◌==◌, arith, ne→==, Bool-cases, inl, inr,
}
use go_tumbler.Errors.{Done, done, Error, destroyed, negative_size, Result, ok}
use go_tumbler.Secure.World.{update}

-- The operations on containers.
pub data Op : Type 0 where
  make : Bytes → Op
  make_zero : ℤ → Op
  copy wipe read size : ℕ → Op

-- What an operation answers.
pub data Output : Type 0 where
  container : ℕ → Output
  payload : Bytes → Output
  bytes_long : ℕ → Output
  wiped_with : Result Done → Output
  failed : Error → Output

-- The payloads that can still be read, and the number of containers that were made.
pub record Vault : Type 0 where
  pub count : ℕ
  pub open_payload : ℕ → Option Bytes

abbrev pub put : Vault → Bytes → Vault
put v b = record { count = v.count + 1; open_payload = update v.open_payload v.count (some b) }

abbrev pub close : Vault → ℕ → Vault
close v h = record v { open_payload = update v.open_payload h none }

-- The steps that the contract allows.
pub data Step (v : Vault) : Op → Output → Vault → Type 0 where
  makes : (b : Bytes) → Step v (make b) (container v.count) (put v b)
  make_refused : (b : Bytes) (e : Error) → Step v (make b) (failed e) v
  makes_zero : (n : ℕ) → Step v (make_zero (pos n)) (container v.count) (put v (replicate n 0))
  make_zero_refused : (n : ℕ) (e : Error) → Step v (make_zero (pos n)) (failed e) v
  make_zero_negative : (n : ℕ) → Step v (make_zero (negsuc n)) (failed negative_size) v
  copies :
      (h : ℕ) (b : Bytes)
      → v.open_payload h ≡ some b
      → Step v (copy h) (container v.count) (put v b)
  copy_refused :
      (h : ℕ) (b : Bytes) (e : Error) → v.open_payload h ≡ some b → Step v (copy h) (failed e) v
  copy_closed : (h : ℕ) → v.open_payload h ≡ none → Step v (copy h) (failed destroyed) v
  wipes :
      (h : ℕ) (b : Bytes) (r : Result Done)
      → v.open_payload h ≡ some b
      → Step v (wipe h) (wiped_with r) (close v h)
  wiped_before : (h : ℕ) → v.open_payload h ≡ none → Step v (wipe h) (wiped_with (ok done)) v
  reads : (h : ℕ) (b : Bytes) → v.open_payload h ≡ some b → Step v (read h) (payload b) v
  read_closed : (h : ℕ) → v.open_payload h ≡ none → Step v (read h) (failed destroyed) v
  measures :
      (h : ℕ) (b : Bytes) → v.open_payload h ≡ some b → Step v (size h) (bytes_long (length b)) v
  measure_closed : (h : ℕ) → v.open_payload h ≡ none → Step v (size h) (bytes_long 0) v

-- A sequence of operations with their answers.
pub data Steps : Vault → List Op → List Output → Vault → Type 0 where
  no_step : (v : Vault) → Steps v [] [] v
  then_step :
      {v u w : Vault} {op : Op} {out : Output} {ops : List Op} {outs : List Output}
      → Step v op out u
      → Steps u ops outs w
      → Steps v (op ∷ ops) (out ∷ outs) w

-- A payload of a container that was made cannot be read.
pub record IsClosed (v : Vault) (h : ℕ) : Type 0 where
  pub made : h < v.count
  pub closed : v.open_payload h ≡ none

put-IsClosed : (v : Vault) (b : Bytes) (h : ℕ) → IsClosed v h → IsClosed (put v b) h
put-IsClosed v b h k = record {
  made = omega (arith, k.made);
  closed = rw (ne→== v.count h (λ e. omega (arith, k.made))) k.closed;
}

close-IsClosed : (v : Vault) (g h : ℕ) → IsClosed v h → IsClosed (close v g) h
close-IsClosed v g h k = record {
  made = k.made;
  closed = elim (Bool-cases (g == h)) [ inl same ↦ rw same refl | inr other ↦ rw other k.closed ];
}

Step-IsClosed :
    (v u : Vault) (op : Op) (out : Output) (h : ℕ) → Step v op out u → IsClosed v h → IsClosed u h
Step-IsClosed v _ _ _ h (makes b) k = put-IsClosed v b h k
Step-IsClosed v _ _ _ h (make_refused b e) k = k
Step-IsClosed v _ _ _ h (makes_zero n) k = put-IsClosed v (replicate n 0) h k
Step-IsClosed v _ _ _ h (make_zero_refused n e) k = k
Step-IsClosed v _ _ _ h (make_zero_negative n) k = k
Step-IsClosed v _ _ _ h (copies g b p) k = put-IsClosed v b h k
Step-IsClosed v _ _ _ h (copy_refused g b e p) k = k
Step-IsClosed v _ _ _ h (copy_closed g p) k = k
Step-IsClosed v _ _ _ h (wipes g b r p) k = close-IsClosed v g h k
Step-IsClosed v _ _ _ h (wiped_before g p) k = k
Step-IsClosed v _ _ _ h (reads g b p) k = k
Step-IsClosed v _ _ _ h (read_closed g p) k = k
Step-IsClosed v _ _ _ h (measures g b p) k = k
Step-IsClosed v _ _ _ h (measure_closed g p) k = k

-- What was closed stays closed.
pub Steps-IsClosed :
    {v u : Vault} {ops : List Op} {outs : List Output} (h : ℕ)
    → Steps v ops outs u
    → IsClosed v h
    → IsClosed u h
Steps-IsClosed h (no_step v) k = k
Steps-IsClosed h (then_step s rest) k = Steps-IsClosed h rest (Step-IsClosed _ _ _ _ h s k)
