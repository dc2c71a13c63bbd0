-- ===== src/ContentHash.antt =====
-- `_content_hash` of src/agent_memory_sdk/repositories/base.py: the hash of a normalised text.
use yaadien.Prelude.{ℕ, Bool, true, false, ◌&&◌, ◌||◌, [], ◌∷◌, ◌==◌, leb, if◌then◌else◌}
use yaadien.Model.{Ident, Text}
use yaadien.Db.{Env}

abbrev pub between : ℕ → ℕ → ℕ → Bool
between lo hi c = leb lo c && leb c hi

-- the white space of `\s` on a `str`, and of `str.strip`
unfoldable pub is_space : ℕ → Bool
is_space c =
    between 9 13 c
    || between 28 32 c
    || c == 133
    || c == 160
    || c == 5760
    || between 8192 8202 c
    || between 8232 8233 c
    || c == 8239
    || c == 8287
    || c == 12288

-- `re.sub(r"\s+", " ", text)`; `within` says that the character before was white space.
unfoldable pub collapse : Bool → Text → Text
unfolding is_space
collapse within [] = []
collapse within (c ∷ s) =
    let rest = collapse (is_space c) s in
    if is_space c then (if within then rest else 32 ∷ rest) else c ∷ rest

unfoldable pub lstrip : Text → Text
unfolding is_space
lstrip [] = []
lstrip (c ∷ s) = if is_space c then lstrip s else c ∷ s

-- a white space character in front of an empty rest goes too
abbrev pub unless_last_space : Bool → ℕ → Text → Text
unless_last_space true c [] = []
unless_last_space true c (d ∷ t) = c ∷ d ∷ t
unless_last_space false c t = c ∷ t

unfoldable pub rstrip : Text → Text
unfolding is_space
rstrip [] = []
rstrip (c ∷ s) = unless_last_space (is_space c) c (rstrip s)

unfoldable pub normalize : Env → Text → Text
unfolding collapse lstrip rstrip
normalize e content = rstrip (lstrip (collapse false (e.lower content)))

unfoldable pub content_hash : Env → Text → Ident
unfolding normalize
content_hash e content = e.sha256 (normalize e content)
