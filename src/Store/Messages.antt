-- ===== src/Store/Messages.antt =====
-- `get_messages` and `get_summary` of src/agent_memory_sdk/store.py.
pub mod Budget
use yaadien.Prelude.{
  ℕ, zero, suc, ◌+◌, ◌-◌, Bool, true, false, ◌&&◌, ◌||◌, not, Option, none, some, List, [], ◌∷◌,
  ◌++◌, map, ltb, leb, ◌==◌, min, length, take, drop, if◌then◌else◌, codes,
}
use yaadien.Model.{ℤ, pos, negsuc, Text, Result, ok, err, value_error, MemoryScope, Memory, ◌>>=◌}
use yaadien.Db.{Db, Env, working_memory}
use yaadien.Repository.Read.{list_all}
use mathlib.Core.List.{reverse}

-- where a slice begins or ends that gives the index, in a list of `n` items
abbrev pub slice_index : ℕ → ℤ → ℕ
slice_index n (pos i) = min i n
slice_index n (negsuc i) = n - suc i

abbrev pub slice_end : ℕ → Option ℤ → ℕ
slice_end n none = n
slice_end n (some i) = slice_index n i

-- `l[start:end]`
unfoldable pub slice {ℓ} : {A : Type ℓ} → ℤ → Option ℤ → List A → List A
slice start end l =
    let first = slice_index (length l) start in
    take (slice_end (length l) end - first) (drop first l)

unfoldable pub get_messages : Env → MemoryScope → ℤ → Option ℤ → Db → Result (List Memory)
unfolding list_all slice
get_messages e scope start end db = do
  newest_first ← list_all e working_memory scope 1000 0 false 0 none db
  ok (slice start end (reverse newest_first))

-- `Summary`
pub record Summary : Type 0 where
  pub content : Text
  pub message_count : ℕ
  pub truncated : Bool

-- `str.isspace` of one character
abbrev pub is_space : ℕ → Bool
is_space c =
    leb 9 c && leb c 13
    || (leb 28 c && leb c 32)
    || c == 133
    || c == 160
    || c == 5760
    || (leb 8192 c && leb c 8202)
    || c == 8232
    || c == 8233
    || c == 8239
    || c == 8287
    || c == 12288

-- `len(line.split())`: a word begins where a character that is no space follows a space. The test
-- says whether the character in front is a space.
unfoldable pub count_words : Bool → Text → ℕ
count_words after_space [] = 0
count_words after_space (c ∷ s) =
    let rest = count_words (is_space c) s in
    (if after_space && not (is_space c) then 1 else 0) + rest

abbrev pub line_tokens : Text → ℕ
unfolding count_words
line_tokens line = count_words true line

-- `f"{role} (-): {content}"`
unfoldable pub format_message : Env → Memory → Text
format_message e m = e.role m.metadata ++ (codes " (-): " ++ m.content)

-- `"\n".join(lines)`
unfoldable pub join_lines : List Text → Text
join_lines [] = []
join_lines (l ∷ []) = l
join_lines (l ∷ m ∷ ls) = l ++ (10 ∷ join_lines (m ∷ ls))

-- the lines that the loop includes, with `used` tokens so far
unfoldable pub within_budget : ℕ → ℕ → List Text → List Text
unfolding count_words
within_budget token_budget used [] = []
within_budget token_budget used (line ∷ lines) =
    let rest = within_budget token_budget (used + line_tokens line) lines in
    if ltb token_budget (used + line_tokens line) then [] else line ∷ rest

-- The messages without the last `except_last`.
unfoldable pub drop_last {ℓ} : {A : Type ℓ} → ℕ → List A → List A
drop_last zero l = l
drop_last (suc n) l = if ltb (suc n) (length l) then take (length l - suc n) l else []

abbrev pub empty_summary : Summary
empty_summary = record { content = []; message_count = 0; truncated = false }

unfoldable pub summarize_lines : Option ℕ → List Text → Summary
unfolding join_lines within_budget
summarize_lines none lines = record {
  content = join_lines lines;
  message_count = length lines;
  truncated = false;
}
summarize_lines (some token_budget) lines =
    let included = within_budget token_budget 0 lines in
    record {
      content = join_lines included;
      message_count = length included;
      truncated = ltb (length included) (length lines);
    }

-- the part behind the checks; without messages the summary is empty
unfoldable pub summarize_messages : Env → Option ℕ → List Memory → Summary
unfolding summarize_lines format_message
summarize_messages e token_budget [] = empty_summary
summarize_messages e token_budget (m ∷ l) =
    summarize_lines token_budget (map (format_message e) (m ∷ l))

-- `if token_budget is not None and token_budget < 0: raise ValueError`
unfoldable pub checked_budget : Option ℤ → Result (Option ℕ)
checked_budget none = ok none
checked_budget (some (pos b)) = ok (some b)
checked_budget (some (negsuc b)) = err value_error

unfoldable pub get_summary : Env → MemoryScope → ℤ → Option ℤ → Db → Result Summary
unfolding list_all checked_budget drop_last summarize_messages
get_summary e scope (negsuc n) token_budget db = err value_error
get_summary e scope (pos except_last) token_budget db = do
  budget ← checked_budget token_budget
  newest_first ← list_all e working_memory scope 10000 0 false 0 none db
  ok (summarize_messages e budget (drop_last except_last (reverse newest_first)))
