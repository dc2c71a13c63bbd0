-- ===== src/Store/Messages/Budget.antt =====
-- The token budget of `get_summary`.
use yaadien.Prelude.{
  ℕ, zero, suc, ◌+◌, ◌-◌, ◌≤◌, ◌<◌, ◌≡◌, ◌≢◌, refl, ap, sym, take_of_length-le, false, none, some,
  List, [], ◌∷◌, map, ltb, length, take, arith, Bool-cases, inl, inr,
}
use yaadien.Model.{pos, Text, ok, MemoryScope, Memory}
use yaadien.Db.{Db, Env, working_memory}
use yaadien.Filter.{build_metadata_filter}
use yaadien.Repository.Listing.{listing, list_all-page}
use yaadien.Store.Messages.{
  Summary, count_words, line_tokens, format_message, join_lines, within_budget, drop_last,
  summarize_lines, summarize_messages, get_summary,
}
use mathlib.Core.List.{reverse}

-- the tokens of lines
unfoldable pub tokens : List Text → ℕ
unfolding count_words
tokens [] = 0
tokens (l ∷ ls) = line_tokens l + tokens ls

-- A summary is the longest run of first lines whose tokens fit into the budget, and says whether
-- it left a line out.
pub record IsWithin (budget : ℕ) (lines : List Text) (s : Summary) : Type 0 where
  pub content : s.content ≡ join_lines (take s.message_count lines)
  pub message_count : s.message_count ≤ length lines
  pub fits : tokens (take s.message_count lines) ≤ budget
  pub longest : s.message_count < length lines → budget < tokens (take (suc s.message_count) lines)
  pub truncated : s.truncated ≡ ltb s.message_count (length lines)

module _ (b : ℕ) where
  within_budget-take :
      (used : ℕ) (lines : List Text)
      → within_budget b used lines ≡ take (length (within_budget b used lines)) lines
  unfolding within_budget
  within_budget-take used [] = refl
  within_budget-take used (l ∷ ls) = ground (arith, within_budget-take (used + line_tokens l) ls)

  length-within_budget :
      (used : ℕ) (lines : List Text) → length (within_budget b used lines) ≤ length lines
  unfolding within_budget
  length-within_budget used [] = omega arith
  length-within_budget used (l ∷ ls) =
      ground (arith, length-within_budget (used + line_tokens l) ls)

  tokens-within_budget :
      (used : ℕ) (lines : List Text) → used ≤ b → used + tokens (within_budget b used lines) ≤ b
  unfolding within_budget tokens
  tokens-within_budget used [] h = omega arith
  tokens-within_budget used (l ∷ ls) h =
      ground (arith, tokens-within_budget (used + line_tokens l) ls)

  within_budget-longest :
      (used : ℕ) (lines : List Text)
      → length (within_budget b used lines) < length lines
      → b < used + tokens (take (suc (length (within_budget b used lines))) lines)
  unfolding within_budget tokens
  within_budget-longest used [] h = absurd (omega arith)
  within_budget-longest used (l ∷ ls) h =
      ground (arith, within_budget-longest (used + line_tokens l) ls)

  summarize_lines-IsWithin : (lines : List Text) → IsWithin b lines (summarize_lines (some b) lines)
  unfolding summarize_lines
  summarize_lines-IsWithin lines = record {
    content = ap join_lines (within_budget-take 0 lines);
    message_count = length-within_budget 0 lines;
    fits =
        rw (← within_budget-take 0 lines)
          (omega (arith, tokens-within_budget 0 lines (omega arith)));
    longest = λ h. omega (arith, within_budget-longest 0 lines h);
    truncated = refl;
  }

  summarize_messages-IsWithin :
      (e : Env) (l : List Memory)
      → IsWithin b (map (format_message e) l) (summarize_messages e (some b) l)
  unfolding summarize_messages
  summarize_messages-IsWithin e [] = record {
    content = unfold join_lines in refl;
    message_count = omega arith;
    fits = unfold tokens in omega arith;
    longest = λ h. absurd (omega arith);
    truncated = refl;
  }
  summarize_messages-IsWithin e (m ∷ l) = summarize_lines-IsWithin (map (format_message e) (m ∷ l))

drop_last-take : (n : ℕ) (l : List Memory) → drop_last n l ≡ take (length l - n) l
unfolding drop_last
drop_last-take zero l = rw nothing (sym (take_of_length-le (length l) l (omega arith)))
  where
    nothing : length l - 0 ≡ length l
    nothing = omega arith
drop_last-take (suc n) l = elim (Bool-cases (ltb (suc n) (length l))) [
  | inl h ↦ rw h refl
  | inr h ↦ let none_left : length l - suc n ≡ 0 = ground (arith, h) in rw (h, none_left) refl
]

module _ (e : Env) (scope : MemoryScope) (db : Db) (h : scope.agent_id ≢ 0) where
  -- the messages of a scope that `list_all` gives, oldest first
  abbrev pub messages : List Memory
  unfolding build_metadata_filter
  messages = reverse (take 1000 (listing e working_memory scope false 0 none [] db h refl))

  -- In a scope with an agent, `get_summary` with a budget returns a summary of the messages without
  -- the last `except_last`, oldest first: the longest run of their lines from the first on that
  -- has no more tokens than the budget. It is marked as truncated exactly if a line is left out.
  -- The messages are the 1000 newest of the scope.
  pub get_summary_lem :
      (except_last token_budget : ℕ)
      → (s : Summary) × (get_summary e scope (pos except_last) (some (pos token_budget)) db ≡ ok s)
        × IsWithin token_budget
            (map (format_message e) (take (length messages - except_last) messages))
            s
  unfolding get_summary build_metadata_filter
  get_summary_lem n b = (
    summarize_messages e (some b) (drop_last n messages),
    rw (list_all-page e working_memory scope false 0 none [] db h refl 10000 0) refl,
    rw (← drop_last-take n messages) (summarize_messages-IsWithin b e (drop_last n messages)),
  )
