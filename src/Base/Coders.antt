-- ===== src/Base/Coders.antt =====
-- What decoders read and encoders write, put together along a block.
use arinc_615a_gui_tool_suit.Base.Lists.{length, concat_map, All}
use arinc_615a_gui_tool_suit.Base.Exceptions.{Bytes, ok, Coder, ◌>>=◌, ◌>>◌, pure}
use mathlib.Core.Path.{◌≡◌}
use mathlib.Core.List.{List, [], ◌∷◌, ◌++◌, append-nil, append_assoc}
use Prim.Native.Nat.{ℕ, zero, suc}

-- The decoder takes `bytes` off the front, whatever follows, and yields `a`.
abbrev pub Reads : {A : Type 0} → Coder A → Bytes → A → Type 0
Reads d bytes a = (rest : Bytes) → d (bytes ++ rest) ≡ ok (rest, a)

-- The encoder appends `bytes` to any buffer, and yields `a`.
abbrev pub Writes : {A : Type 0} → Coder A → Bytes → A → Type 0
Writes m bytes a = (buffer : Bytes) → m buffer ≡ ok (buffer ++ bytes, a)

module _ {A B : Type 0} where
  pub Reads-bind :
      (d : Coder A) (f : A → Coder B) (xs ys : Bytes) {a : A} {b : B}
      → Reads d xs a
      → Reads (f a) ys b
      → Reads (d >>= f) (xs ++ ys) b
  Reads-bind d f xs ys h k rest = rw (append_assoc, h (ys ++ rest)) (k rest)

  -- A step that reads nothing.
  pub Reads-bind_nil :
      (d : Coder A) (f : A → Coder B) (ys : Bytes) {a : A} {b : B}
      → Reads d [] a
      → Reads (f a) ys b
      → Reads (d >>= f) ys b
  Reads-bind_nil d f ys h k rest = rw (h (ys ++ rest)) (k rest)

  pub Writes-bind :
      (m : Coder A) (f : A → Coder B) (xs ys : Bytes) {a : A} {b : B}
      → Writes m xs a
      → Writes (f a) ys b
      → Writes (m >>= f) (xs ++ ys) b
  Writes-bind m f xs ys h k buffer = rw (h buffer, ← append_assoc) (k (buffer ++ xs))

  pub Writes-bind_nil :
      (m : Coder A) (f : A → Coder B) (ys : Bytes) {a : A} {b : B}
      → Writes m [] a
      → Writes (f a) ys b
      → Writes (m >>= f) ys b
  Writes-bind_nil m f ys h k buffer = rw (h buffer, append-nil) (k buffer)

module _ {A : Type 0} where
  -- `for ( const auto &x : xs ) { … }` in an encoder.
  unfoldable pub for_each : (A → Coder (Unit {0})) → List A → Coder (Unit {0})
  for_each body [] = pure tt
  for_each body (x ∷ xs) = body x >> for_each body xs

  -- `for ( i = 0; i < n; ++i ) { …; list.emplace_back( … ); }` in a decoder.
  unfoldable pub repeat : Coder A → ℕ → List A → Coder (List A)
  repeat body zero list = pure list
  repeat body (suc n) list = body >>= λ a. repeat body n (list ++ (a ∷ []))

  pub Writes-for_each :
      (body : A → Coder (Unit {0})) (bytes : A → Bytes) (P : A → Type 0)
      → ((x : A) → P x → Writes (body x) (bytes x) tt)
      → (xs : List A) → All P xs
      → Writes (for_each body xs) (concat_map bytes xs) tt
  unfolding for_each
  Writes-for_each body bytes P each [] h = λ buffer. rw append-nil
  Writes-for_each body bytes P each (x ∷ xs) h =
      Writes-bind (body x) (λ _. for_each body xs) (bytes x) (concat_map bytes xs) (each x h.0)
        (Writes-for_each body bytes P each xs h.1)

  pub Reads-repeat :
      (body : Coder A) (bytes : A → Bytes) (P : A → Type 0)
      → ((x : A) → P x → Reads body (bytes x) x)
      → (xs list : List A) → All P xs
      → Reads (repeat body (length xs) list) (concat_map bytes xs) (list ++ xs)
  unfolding repeat
  Reads-repeat body bytes P each [] list h = λ rest. rw append-nil
  Reads-repeat body bytes P each (x ∷ xs) list h = rw (← append_assoc list (x ∷ []) xs) (
      Reads-bind body (λ a. repeat body (length xs) (list ++ (a ∷ []))) (bytes x)
        (concat_map bytes xs) (each x h.0)
        (Reads-repeat body bytes P each xs (list ++ (x ∷ [])) h.1))
