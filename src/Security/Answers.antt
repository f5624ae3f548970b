-- ===== src/Security/Answers.antt =====
-- The cleaning of answers: `normalize_markdown`, `sanitize_customer_answer` and the collapse of
-- repeated copies, of app/security/guardrails.py.
pub mod Copies
pub mod Reason
use Prim.Native.Char.{Char, code}
use ai_customer_support_plat.Security.Patterns.{Unicode, lower_text}
use ai_customer_support_plat.Prelude.{
  Bool, List, Option, String, [], false, has_prefix, if◌then◌else◌, is_space, join, leb, length,
  lstrip, ltb, nat_beq, none, nonempty, not, push_char, some, strip, suc, zero, ℕ, ◌%◌, ◌&&◌, ◌/◌,
  ◌==◌, ◌||◌, ◌⁀◌, ◌∷◌,
}

-- len(text)
unfoldable pub text_length : String → ℕ
text_length String.[] = 0
text_length (String.◌∷◌ c s) = suc (text_length s)

-- text[:n]
unfoldable pub take_text : ℕ → String → String
take_text n String.[] = String.[]
take_text zero (String.◌∷◌ c s) = String.[]
take_text (suc n) (String.◌∷◌ c s) = String.◌∷◌ c (take_text n s)

-- unit * n
unfoldable pub copies : ℕ → String → String
copies zero t = String.[]
copies (suc n) t = t ⁀ copies n t

-- the line breaks of `str.splitlines`
unfoldable pub is_line_break : ℕ → Bool
is_line_break n =
    (leb 10 n && leb n 13)
    || (leb 28 n && leb n 30)
    || nat_beq n 133
    || nat_beq n 8232
    || nat_beq n 8233

abbrev pub starts_line_feed : String → Bool
starts_line_feed String.[] = false
starts_line_feed (String.◌∷◌ c s) = nat_beq (code c) 10

-- text.splitlines(), where "\r\n" is one break
unfoldable pub split_lines : String → List String
unfolding is_line_break
split_lines String.[] = []
split_lines (String.◌∷◌ c s) =
    let rest = split_lines s in
    if nat_beq (code c) 13 && starts_line_feed s
    then rest
    else if is_line_break (code c)
    then String.[] ∷ rest
    else push_char c rest

unfoldable pub ends_with_bar : String → Bool
ends_with_bar String.[] = false
ends_with_bar (String.◌∷◌ c String.[]) = nat_beq (code c) 124
ends_with_bar (String.◌∷◌ c (String.◌∷◌ d s)) = ends_with_bar (String.◌∷◌ d s)

-- `^#{1,6}`
unfoldable pub drop_hashes : ℕ → String → String
drop_hashes zero s = s
drop_hashes (suc n) String.[] = String.[]
drop_hashes (suc n) (String.◌∷◌ c s) =
    let rest = drop_hashes n s in if nat_beq (code c) 35 then rest else String.◌∷◌ c s

abbrev starts_with_code : ℕ → String → Bool
starts_with_code n String.[] = false
starts_with_code n (String.◌∷◌ c s) = nat_beq (code c) n

-- the loop of `normalize_markdown`: tables are left out, headings lose their mark
unfoldable pub clean_lines : List String → List String
unfolding ends_with_bar drop_hashes lstrip
clean_lines [] = []
clean_lines (line ∷ lines) =
    let rest = clean_lines lines in
    let stripped = lstrip line in
    if starts_with_code 124 stripped && ends_with_bar stripped
    then rest
    else if starts_with_code 35 stripped
    then lstrip (drop_hashes 6 stripped) ∷ rest
    else line ∷ rest

-- the mark, a character twice
abbrev starts_with_mark : ℕ → String → Bool
starts_with_mark m (String.◌∷◌ a (String.◌∷◌ b s)) = nat_beq (code a) m && nat_beq (code b) m
starts_with_mark m _ = false

abbrev one_more : Option ℕ → Option ℕ
one_more none = none
one_more (some n) = some (suc n)

-- How many characters stand before the next mark on this line: the rest of `(.+?)`.
unfoldable pub before_mark : ℕ → String → Option ℕ
before_mark m String.[] = none
before_mark m (String.◌∷◌ c s) =
    let rest = before_mark m s in
    if starts_with_mark m (String.◌∷◌ c s)
    then some 0
    else if nat_beq (code c) 10
    then none
    else one_more rest

-- `(.+?)` behind the opening mark, at least one character
abbrev marked_after : ℕ → String → Option ℕ
marked_after m String.[] = none
marked_after m (String.◌∷◌ c s) =
    let rest = before_mark m s in if nat_beq (code c) 10 then none else one_more rest

abbrev tail_text : String → String
tail_text String.[] = String.[]
tail_text (String.◌∷◌ c s) = s

-- the length of the text between the marks, where a pair of marks starts
abbrev marked_text : ℕ → String → Option ℕ
marked_text m s = if starts_with_mark m s then marked_after m (tail_text (tail_text s)) else none

-- re.sub of a pair of marks by the text between them: what is still to be dropped, kept and dropped
-- of the pair that has been found
unfoldable pub drop_marks : ℕ → ℕ → ℕ → ℕ → String → String
unfolding before_mark
drop_marks m before kept behind String.[] = String.[]
drop_marks m (suc before) kept behind (String.◌∷◌ c s) = drop_marks m before kept behind s
drop_marks m zero (suc kept) behind (String.◌∷◌ c s) =
    String.◌∷◌ c (drop_marks m zero kept behind s)
drop_marks m zero zero (suc behind) (String.◌∷◌ c s) = drop_marks m zero zero behind s
drop_marks m zero zero zero (String.◌∷◌ c s) = elim (marked_text m (String.◌∷◌ c s)) [
  | none ↦ String.◌∷◌ c (drop_marks m zero zero zero s)
  | some n ↦ drop_marks m 1 n 2 s
]

unfoldable pub normalize_markdown : String → String
unfolding split_lines clean_lines join drop_marks strip
normalize_markdown text =
    strip (drop_marks 95 0 0 0 (drop_marks 42 0 0 0 (join "\n" (clean_lines (split_lines text)))))

-- `_ESCALATION_REASON_RE` at the start of a text
unfoldable pub reason_starts : Unicode → String → Bool
unfolding has_prefix lower_text lstrip
reason_starts u s =
    has_prefix "escalation reason:" (lower_text u s)
    || (starts_line_feed s && has_prefix "escalation reason:" (lower_text u (lstrip s)))

-- `_ESCALATION_REASON_RE.sub("", text)`: a match reaches to the end
unfoldable pub cut_reason : Unicode → String → String
unfolding reason_starts
cut_reason u String.[] = String.[]
cut_reason u (String.◌∷◌ c s) =
    let rest = cut_reason u s in
    if reason_starts u (String.◌∷◌ c s) then String.[] else String.◌∷◌ c rest

-- `_collapse_concatenated_copy`, one round of its loop and the rounds behind it
unfoldable pub collapse_into : ℕ → String → String → String
unfolding text_length take_text copies
collapse_into parts text rest =
    let length = text_length text in
    let size = length / parts in
    let unit = take_text size text in
    if not (nat_beq (length % parts) 0)
    then rest
    else if ltb size 20
    then rest
    else if copies parts unit == text
    then unit
    else rest

unfoldable pub collapse_concatenated_copy : String → String
unfolding collapse_into text_length
collapse_concatenated_copy text =
    if ltb (text_length text) 40
    then text
    else collapse_into 2 text (collapse_into 3 text (collapse_into 4 text text))

-- how far a run of spaces reaches to its last line feed
unfoldable pub to_last_feed : String → Option ℕ
unfolding is_space
to_last_feed String.[] = none
to_last_feed (String.◌∷◌ c s) =
    let rest = to_last_feed s in
    if not (is_space (code c))
    then none
    else elim rest [ some n ↦ some (suc n) | none ↦ if nat_beq (code c) 10 then some 1 else none ]

-- re.split(r"\n\s*\n", text); the number counts what is left of a separator
unfoldable pub split_paragraphs : ℕ → String → List String
unfolding to_last_feed
split_paragraphs skip String.[] = String.[] ∷ []
split_paragraphs (suc skip) (String.◌∷◌ c s) = split_paragraphs skip s
split_paragraphs zero (String.◌∷◌ c s) =
    let rest = split_paragraphs zero s in
    if nat_beq (code c) 10
    then elim (to_last_feed s) [
      | some n ↦ String.[] ∷ split_paragraphs n s
      | none ↦ push_char c rest
    ]
    else push_char c rest

-- [part.strip() for part in ... if part.strip()]
unfoldable pub strip_parts : List String → List String
unfolding strip
strip_parts [] = []
strip_parts (part ∷ parts) =
    let rest = strip_parts parts in if nonempty (strip part) then strip part ∷ rest else rest

abbrev pub is_last : String → Option String → Bool
is_last unit none = false
is_last unit (some last) = last == unit

-- the loop of `_collapse_repeated_answer`, behind the last part that it has taken
unfoldable pub collapse_parts : Option String → List String → List String
unfolding collapse_concatenated_copy
collapse_parts last [] = []
collapse_parts last (paragraph ∷ paragraphs) =
    let unit = collapse_concatenated_copy paragraph in
    let kept = collapse_parts last paragraphs in
    let taken = collapse_parts (some unit) paragraphs in
    if is_last unit last then kept else unit ∷ taken

unfoldable pub collapse_repeated_answer : String → String
unfolding join collapse_parts strip_parts split_paragraphs
collapse_repeated_answer text =
    if nonempty text
    then join "\n\n" (collapse_parts none (strip_parts (split_paragraphs 0 text)))
    else text

unfoldable pub sanitize_customer_answer : Unicode → String → String
unfolding normalize_markdown cut_reason strip collapse_repeated_answer
sanitize_customer_answer u text =
    collapse_repeated_answer (strip (cut_reason u (normalize_markdown text)))
