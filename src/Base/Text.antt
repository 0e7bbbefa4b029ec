-- ===== src/Base/Text.antt =====
-- Tests on Go strings: their length in bytes, hexadecimal digits, and what they contain. A text is
-- valid UTF-8, as JSON gives it.
use Prim.Native.Nat.{ℕ, ◌+◌}
use mathlib.Core.Bool.{Bool, true, false, ◌&&◌, ◌||◌}
use mathlib.Core.List.{[], ◌∷◌}
use mathlib.Core.Option.{Option, none, some}
use aksagent_sandbox.Base.Tests.{eqb, leb, ltb, if◌then◌else◌}
use aksagent_sandbox.Base.Lists.{length}
use aksagent_sandbox.Base.Bytes.{Bytes, codes, strip_prefix}

utf8_width : ℕ → ℕ
utf8_width c = if ltb c 128 then 1 else if ltb c 2048 then 2 else if ltb c 65536 then 3 else 4

-- `len` of a text, by its code points.
unfoldable pub byte_length : Bytes → ℕ
unfolding utf8_width
byte_length [] = 0
byte_length (c ∷ cs) = utf8_width c + byte_length cs

is_hex : ℕ → Bool
is_hex c = (leb 48 c && leb c 57) || (leb 97 c && leb c 102) || (leb 65 c && leb c 70)

unfoldable pub all_hex : Bytes → Bool
unfolding is_hex
all_hex [] = true
all_hex (c ∷ cs) = is_hex c && all_hex cs

-- `^[0-9a-fA-F]{n}$`
unfoldable pub is_hex_of : ℕ → Bytes → Bool
unfolding all_hex
is_hex_of n cs = eqb (length cs) n && all_hex cs

hex_after : Option Bytes → Bool
unfolding is_hex_of
hex_after none = false
hex_after (some digits) = is_hex_of 64 digits

-- `^sha256:[0-9a-fA-F]{64}$`
unfoldable pub is_digest : Bytes → Bool
unfolding hex_after strip_prefix
is_digest cs = hex_after (strip_prefix (codes "sha256:") cs)

is_some : Option Bytes → Bool
is_some none = false
is_some (some _) = true

-- strings.HasPrefix
unfoldable pub has_prefix : Bytes → Bytes → Bool
unfolding is_some strip_prefix
has_prefix prefix s = is_some (strip_prefix prefix s)

-- strings.Contains
unfoldable pub contains : Bytes → Bytes → Bool
unfolding has_prefix
contains [] term = has_prefix term []
contains (c ∷ cs) term = has_prefix term (c ∷ cs) || contains cs term

member : ℕ → Bytes → Bool
member x [] = false
member x (y ∷ ys) = eqb x y || member x ys

-- strings.ContainsAny, for a set of ASCII characters.
unfoldable pub contains_any : Bytes → Bytes → Bool
unfolding member
contains_any [] chars = false
contains_any (c ∷ cs) chars = member c chars || contains_any cs chars
