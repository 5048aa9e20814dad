-- ===== src/Prelude/Texts.antt =====
-- Texts: equality of whole texts, and maps with text keys as functions.
use Prim.Native.Char.{code}
use Prim.Native.Nat.{ℕ}
use Prim.Native.String.{String}
use mathlib.Core.Bool.{Bool, true, false, ◌&&◌, ◌||◌}
use mathlib.Core.Path.{◌≡◌, refl}
use mathlib.Core.Logic.{◌≢◌, ◌↔◌}
use native.Mathlib.Omega.{arith}
use text.Mathlib.Text.{◌==◌}
use text.Mathlib.TextEquality.{eq_iff}
use uni_api.Prelude.Tests.{if◌then◌else◌, leb}

abbrev pub str_eq : String → String → Bool
str_eq s t = s == t

pub str_eq_iff : (s t : String) → (str_eq s t ≡ true) ↔ (s ≡ t)
str_eq_iff s t = eq_iff s t

pub str_eq_refl : (s : String) → str_eq s s ≡ true
str_eq_refl s = (eq_iff s s).1 refl

-- `m[k] = v` on a dictionary with a default for missing keys.
unfoldable pub update {ℓ} : {V : Type ℓ} → String → V → (String → V) → String → V
update k v m j = if str_eq k j then v else m j

pub update_self {ℓ} : {V : Type ℓ} (k : String) (v : V) (m : String → V) → update k v m k ≡ v
unfolding update
update_self k v m = rw (str_eq_refl k)

pub update_ne {ℓ} :
    {V : Type ℓ} (k j : String) (v : V) (m : String → V) → k ≢ j → update k v m j ≡ m j
unfolding update
update_ne k j v m h = ground (arith, str_eq_iff k j)

-- What `str.strip()` takes off, among the ASCII characters.
abbrev is_space : ℕ → Bool
is_space c = (leb 9 c && leb c 13) || (leb 28 c && leb c 32)

abbrev is_empty : String → Bool
is_empty String.[] = true
is_empty (String.◌∷◌ c s) = false

unfoldable pub strip_left : String → String
strip_left String.[] = String.[]
strip_left (String.◌∷◌ c s) = if is_space (code c) then strip_left s else String.◌∷◌ c s

unfoldable pub strip_right : String → String
strip_right String.[] = String.[]
strip_right (String.◌∷◌ c s) =
    let rest = strip_right s in
    if is_space (code c) && is_empty rest then String.[] else String.◌∷◌ c rest

unfoldable pub strip : String → String
unfolding strip_left strip_right
strip s = strip_right (strip_left s)

strip_words : strip "  gpt 4 " ≡ "gpt 4"
unfolding strip
strip_words = refl
