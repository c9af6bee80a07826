-- ===== src/SplitMessage.antt =====
-- How a long text is cut into messages: `splitMessage` and its callers `SplitMessage` and
-- `SplitMessageAt` (internal/transport/telegram/client.go). A text is the list of its runes, as
-- `[]rune(text)` gives it; of `SendLong` the chunks that it sends, in their order.
pub mod Limits
pub mod Chunks
mod Examples
use blueship.Prelude.Int.{ℤ, pos, negsuc}
use blueship.Prelude.{
  ℕ, zero, suc, ◌-◌, ◌/◌, Bool, true, false, not, ◌&&◌, Option, none, some, List, [], ◌∷◌, length,
  get_elem?, take, drop, leb, ◌==◌, if◌then◌else◌,
}

abbrev pub newline : ℕ
newline = 10

unfoldable pub newline_at : List ℕ → ℕ → Bool
newline_at runes i = elim (get_elem? runes i) [ none ↦ false | some r ↦ r == newline ]

-- `i >= 2 && runes[i-1] == '\n' && runes[i-2] == '\n'`
unfoldable pub paragraph_at : List ℕ → ℕ → Bool
paragraph_at runes i = leb 2 i && newline_at runes (i - 1) && newline_at runes (i - 2)

-- The two variables of the inner loop.
pub record Cut : Type 0 where
  pub cut_at : ℕ
  pub single_newline : ℕ

-- The inner loop, with the index `i` counting down to a quarter of the limit.
unfoldable pub cut_loop : List ℕ → ℕ → ℕ → ℕ → Cut
cut_loop runes max_len single zero = record { cut_at = max_len; single_newline = single }
cut_loop runes max_len single (suc j) =
    let single' = if newline_at runes j && single == 0 then suc j else single in
    let rest = cut_loop runes max_len single' j in
    if leb (suc j) (max_len / 4)
    then record { cut_at = max_len; single_newline = single }
    else if paragraph_at runes (suc j)
    then record { cut_at = suc j; single_newline = single }
    else rest

unfoldable pub cut_of : ℕ → Cut → ℕ
cut_of max_len c =
    if c.cut_at == max_len && not (c.single_newline == 0) then c.single_newline else c.cut_at

unfoldable pub cut : List ℕ → ℕ → ℕ
cut runes max_len = cut_of max_len (cut_loop runes max_len 0 max_len)

-- The outer loop; out of fuel it drops the rest.
unfoldable pub split_loop : ℕ → ℕ → List ℕ → List (List ℕ)
split_loop fuel max_len [] = []
split_loop zero max_len (r ∷ rs) = []
split_loop (suc fuel) max_len (r ∷ rs) =
    let n = cut (r ∷ rs) max_len in
    let rest = split_loop fuel max_len (drop n (r ∷ rs)) in
    if leb (length (r ∷ rs)) max_len then (r ∷ rs) ∷ [] else take n (r ∷ rs) ∷ rest

unfoldable pub split_message : List ℕ → ℤ → List (List ℕ)
split_message text (pos zero) = []
split_message text (negsuc n) = []
split_message text (pos (suc m)) = split_loop (length text) (suc m) text

abbrev pub split_message_at : List ℕ → ℤ → List (List ℕ)
split_message_at text max_runes = split_message text max_runes

abbrev pub max_telegram_message_length : ℤ
max_telegram_message_length = pos 4096

-- What `SendLong` sends: the text itself, or its chunks.
unfoldable pub send_long : List ℕ → List (List ℕ)
send_long text =
    if leb (length text) 4096 then text ∷ [] else split_message text max_telegram_message_length
