-- ===== src/Base/Bytes.antt =====
-- Byte sequences, and Go's strings.Split on a separator of one byte.
use Prim.Native.Nat.{ℕ}
use Prim.Native.Char.{code}
use Prim.Native.String.{String}
use mathlib.Core.Path.{◌≡◌, refl, sym, ap, ◌∙◌}
use mathlib.Core.Bool.{Bool, true, false, ◌&&◌, ◌||◌}
use mathlib.Core.List.{List, [], ◌∷◌, ◌++◌}
use mathlib.Core.Option.{Option, none, some}
use mathlib.Core.Logic.{inl, inr}
use native.Mathlib.Omega.{arith}
use aksagent_sandbox.Base.Tests.{eqb, leb, if◌then◌else◌, Bool-cases, some_injective}
use aksagent_sandbox.Base.Lists.{All}

abbrev pub Bytes : Type 0
Bytes = List ℕ

-- The bytes of an ASCII text.
abbrev pub codes : String → Bytes
codes String.[] = []
codes (String.◌∷◌ c s) = code c ∷ codes s

unfoldable pub bytes_eq : Bytes → Bytes → Bool
bytes_eq [] [] = true
bytes_eq (x ∷ xs) (y ∷ ys) = eqb x y && bytes_eq xs ys
bytes_eq _ _ = false

pub bytes_eq_refl : (xs : Bytes) → bytes_eq xs xs ≡ true
unfolding bytes_eq
bytes_eq_refl [] = refl
bytes_eq_refl (x ∷ xs) = ground (arith, bytes_eq_refl xs)

pub bytes_eq→eq : (xs ys : Bytes) → bytes_eq xs ys ≡ true → xs ≡ ys
unfolding bytes_eq
bytes_eq→eq [] [] h = refl
bytes_eq→eq [] (y ∷ ys) h = cc
bytes_eq→eq (x ∷ xs) [] h = cc
bytes_eq→eq (x ∷ xs) (y ∷ ys) h = ground (arith, bytes_eq→eq xs ys)

-- `c` put before the first part.
prepend : ℕ → List Bytes → List Bytes
prepend c [] = (c ∷ []) ∷ []
prepend c (p ∷ ps) = (c ∷ p) ∷ ps

unfoldable pub split : ℕ → Bytes → List Bytes
unfolding prepend
split sep [] = [] ∷ []
split sep (c ∷ cs) = let rest = split sep cs in if eqb c sep then [] ∷ rest else prepend c rest

abbrev pub Lacks : ℕ → Bytes → Type 0
Lacks sep = All (λ c. eqb c sep ≡ false)

-- A part without the separator is one part.
pub split_part : (sep : ℕ) (p : Bytes) → Lacks sep p → split sep p ≡ p ∷ []
unfolding split
split_part sep [] h = refl
split_part sep (c ∷ p) h = rw (h.0, split_part sep p h.1)

pub split-append :
    (sep : ℕ) (p rest : Bytes) → Lacks sep p → split sep (p ++ sep ∷ rest) ≡ p ∷ split sep rest
unfolding split
split-append sep [] rest h = ground arith
split-append sep (c ∷ p) rest h = rw (h.0, split-append sep p rest h.1)

-- The three parts of a token.
pub split_three :
    (sep : ℕ) (a b c : Bytes)
    → Lacks sep a
    → Lacks sep b
    → Lacks sep c
    → split sep (a ++ sep ∷ (b ++ sep ∷ c)) ≡ a ∷ b ∷ c ∷ []
split_three sep a b c ha hb hc =
    rw (split-append sep a (b ++ sep ∷ c) ha, split-append sep b c hb, split_part sep c hc)

-- The parts with the separator between them.
unfoldable pub join : ℕ → List Bytes → Bytes
join sep [] = []
join sep (p ∷ []) = p
join sep (p ∷ q ∷ ps) = p ++ sep ∷ join sep (q ∷ ps)

join-prepend : (sep c : ℕ) (ps : List Bytes) → join sep (prepend c ps) ≡ c ∷ join sep ps
unfolding join prepend
join-prepend sep c [] = refl
join-prepend sep c (p ∷ []) = refl
join-prepend sep c (p ∷ q ∷ ps) = refl

split-cases : (sep : ℕ) (s : Bytes) → (p : Bytes) × (ps : List Bytes) × (split sep s ≡ p ∷ ps)
unfolding split prepend
split-cases sep [] = ([], [], refl)
split-cases sep (c ∷ s) =
    let (p, ps, h) = split-cases sep s in
    elim (Bool-cases (eqb c sep)) [
      | inl e ↦ ([], split sep s, rw (e) refl)
      | inr e ↦ (c ∷ p, ps, rw (e, h) refl)
    ]

eqb→eq : (a b : ℕ) → eqb a b ≡ true → a ≡ b
eqb→eq a b h = ground arith

join-nil :
    (sep : ℕ) (p : Bytes) (ps : List Bytes) → join sep ([] ∷ p ∷ ps) ≡ sep ∷ join sep (p ∷ ps)
unfolding join
join-nil sep p ps = refl

pub join-split : (sep : ℕ) (s : Bytes) → join sep (split sep s) ≡ s
unfolding join split
join-split sep [] = refl
join-split sep (c ∷ s) =
    let (p, ps, h) = split-cases sep s in
    let rest = sym (ap (join sep) h) ∙ join-split sep s in
    elim (Bool-cases (eqb c sep)) [
      | inl e ↦ rw (e, h, join-nil sep p ps, rest) (ap (λ x. x ∷ s) (sym (eqb→eq c sep e)))
      | inr e ↦ rw (e, join-prepend sep c (split sep s), join-split sep s) refl
    ]

prepend-Lacks :
    (sep c : ℕ) (ps : List Bytes)
    → eqb c sep ≡ false
    → All (Lacks sep) ps
    → All (Lacks sep) (prepend c ps)
unfolding prepend
prepend-Lacks sep c [] e h = ((e, tt), tt)
prepend-Lacks sep c (p ∷ ps) e h = ((e, h.0), h.1)

pub split-Lacks : (sep : ℕ) (s : Bytes) → All (Lacks sep) (split sep s)
unfolding split
split-Lacks sep [] = (tt, tt)
split-Lacks sep (c ∷ s) = elim (Bool-cases (eqb c sep)) [
  | inl e ↦ rw (e) (tt, split-Lacks sep s)
  | inr e ↦ rw (e) (prepend-Lacks sep c (split sep s) e (split-Lacks sep s))
]

-- strings.HasPrefix with strings.TrimPrefix: what follows the prefix.
unfoldable pub strip_prefix : Bytes → Bytes → Option Bytes
strip_prefix [] s = some s
strip_prefix (c ∷ p) [] = none
strip_prefix (c ∷ p) (d ∷ s) = let rest = strip_prefix p s in if eqb c d then rest else none

pub strip_prefix-append : (p s : Bytes) → strip_prefix p (p ++ s) ≡ some s
unfolding strip_prefix
strip_prefix-append [] s = refl
strip_prefix-append (c ∷ p) s = ground (arith, strip_prefix-append p s)

pub strip_prefix→append : (p s r : Bytes) → strip_prefix p s ≡ some r → s ≡ p ++ r
unfolding strip_prefix
strip_prefix→append [] s r h = some_injective h
strip_prefix→append (c ∷ p) [] r h = cc
strip_prefix→append (c ∷ p) (d ∷ s) r h = ground (arith, strip_prefix→append p s r)

is_space : ℕ → Bool
is_space c = (leb 9 c && leb c 13) || eqb c 32

trim_left : Bytes → Bytes
unfolding is_space
trim_left [] = []
trim_left (c ∷ s) = let rest = trim_left s in if is_space c then rest else c ∷ s

trim_right : Bytes → Bytes
unfolding is_space
trim_right [] = []
trim_right (c ∷ s) =
    let rest = trim_right s in if is_space c && bytes_eq rest [] then [] else c ∷ rest

-- strings.TrimSpace, on ASCII text.
unfoldable pub trim_space : Bytes → Bytes
unfolding trim_left trim_right
trim_space s = trim_left (trim_right s)
