-- ===== src/RealOrder/Redact.antt =====
-- Python's `sub in text`, `lower` and the case-insensitive `re.sub` of a literal, on code points.
-- Case is that of ASCII.
pub mod Clean
use stock_ai_platform.Base.{
  ℕ, zero, suc, ◌+◌, ◌-◌, Bool, true, false, ◌&&◌, ◌||◌, [], ◌∷◌, ◌++◌, map, leb, ◌==◌,
  if◌then◌else◌, Text, codes, length,
}

abbrev pub lower_code : ℕ → ℕ
lower_code c = if leb b'A' c && leb c b'Z' then c + 32 else c

unfoldable pub lower : Text → Text
lower t = map lower_code t

-- `text.startswith(word)`
unfoldable pub starts_with : Text → Text → Bool
starts_with [] t = true
starts_with (w ∷ ws) [] = false
starts_with (w ∷ ws) (c ∷ t) = w == c && starts_with ws t

-- `word in text`
unfoldable pub contains_sub : Text → Text → Bool
unfolding starts_with
contains_sub w [] = starts_with w []
contains_sub w (c ∷ t) = starts_with w (c ∷ t) || contains_sub w t

abbrev pub stars : Text
stars = codes "***"

-- The scan of `re.sub` for the lower-case literal `w`, with the number of characters of a match
-- still to be passed over.
unfoldable pub redact_from : Text → ℕ → Text → Text
unfolding starts_with lower
redact_from w k [] = []
redact_from w (suc k) (c ∷ t) = redact_from w k t
redact_from w zero (c ∷ t) =
    if starts_with w (lower (c ∷ t))
    then stars ++ redact_from w (length w - 1) t
    else c ∷ redact_from w 0 t

-- `re.compile(re.escape(w), re.IGNORECASE).sub("***", text)`
unfoldable pub redact : Text → Text → Text
unfolding redact_from
redact w t = redact_from w 0 t
