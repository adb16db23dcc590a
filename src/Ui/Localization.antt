-- ===== src/Ui/Localization.antt =====
-- crates/client-ui/src/localization.rs, and `str::replace`. The files of languages and the two that are
-- built in are given as what is read of them.
use rsmsg.Base.{
  ℕ, zero, suc, ◌-◌, Option, none, some, List, [], ◌∷◌, ◌++◌, length, ◌==◌, text_eq, is_some,
  unwrap_or, if◌then◌else◌,
}
use rsmsg.Base.Text.{Text, codes, strip_prefix}
use rsmsg.Base.Dict.{get}

pub record Localization : Type 0 where
  pub fallback : List (Text × Text)
  pub current : List (Text × Text)

-- `load_language_file`, by the language, and the embedded files, as the maps that are read of them.
pub record Locales : Type 0 where
  pub load_language_file : Text → Option (List (Text × Text))
  pub embedded_en : List (Text × Text)
  pub embedded_ru : List (Text × Text)

unfoldable pub normalize_language : Text → Text
normalize_language language = if language == codes "ru" then codes "ru" else codes "en"

unfoldable pub load : Locales → Text → Localization
unfolding normalize_language
load locales named =
    let language = normalize_language named in
    let fallback = unwrap_or (locales.load_language_file (codes "en")) locales.embedded_en in
    record {
      fallback = fallback;
      current =
          if language == codes "en"
          then fallback
          else if language == codes "ru"
          then unwrap_or (locales.load_language_file language) locales.embedded_ru
          else unwrap_or (locales.load_language_file language) [];
    }

unfoldable pub text : Localization → Text → Text
text localization key = elim (get key localization.current) [
  | some found ↦ found
  | none ↦ unwrap_or (get key localization.fallback) key
]

-- `str::replace` for a pattern that is not empty; the number is of the characters of an occurrence
-- that are still to be left out.
unfoldable pub replace_from : ℕ → Text → Text → Text → Text
replace_from skip pattern by [] = []
replace_from (suc skip) pattern by (c ∷ s) = replace_from skip pattern by s
replace_from zero pattern by (c ∷ s) =
    let kept = c ∷ replace_from 0 pattern by s in
    let replaced = by ++ replace_from (length pattern - 1) pattern by s in
    if is_some (strip_prefix pattern (c ∷ s)) then replaced else kept

unfoldable pub replace : Text → Text → Text → Text
unfolding replace_from
replace s pattern by = replace_from 0 pattern by s

-- The values in the place of their names in braces.
unfoldable pub fill : List (Text × Text) → Text → Text
unfolding replace
fill [] s = s
fill ((name, value) ∷ values) s = fill values (replace s (codes "{" ++ (name ++ codes "}")) value)
