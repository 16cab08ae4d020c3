-- ===== src/Mail/Lines.antt =====
-- The lines of a rendered message.
use Prim.Native.String.{[] as nil, ◌∷◌ as cons, ◌++◌ as concat}
use Prim.Native.String.append
use ecosystem_complete.Prelude.{◌≡◌, refl, ap, ◌∙◌, String, true, List, [], ◌∷◌, ◌++◌, arith, map}
use ecosystem_complete.Prelude.Split.{split_on, lacks, all_lack, lacks-concat}
use ecosystem_complete.Runtime.{Message}
use ecosystem_complete.Mail.{sanitize, headers, write_lines, render}

lacks-sanitize : (s : String) → lacks 10 (sanitize s) ≡ true
unfolding lacks sanitize
lacks-sanitize nil = refl
lacks-sanitize (cons c s) = ground (arith, lacks-sanitize s)

-- A line as it stands before its line feed
abbrev pub with_return : String → String
with_return line = concat line "\r"

line_break : (rest : String) → concat "\r\n" rest ≡ cons "\r" (cons "\n" rest)
line_break rest =
    append.cons "\r" "\n" rest
    ∙ ap (λ t. cons "\r" t) (append.cons "\n" nil rest ∙ ap (λ t. cons "\n" t) (append.nil rest))

break_after :
    (line rest : String)
    → lacks 10 line ≡ true
    → split_on 10 (concat line (concat "\r\n" rest)) ≡ with_return line ∷ split_on 10 rest
unfolding split_on lacks
break_after nil rest h = rw (append.nil, line_break rest)
break_after (cons c s) rest h = simp append.cons (ground (arith, break_after s rest (ground arith)))

split-write_lines :
    (lines : List String) (body : String)
    → all_lack 10 lines ≡ true
    → split_on 10 (write_lines lines body) ≡ map with_return lines ++ split_on 10 body
unfolding write_lines all_lack
split-write_lines [] body h = refl
split-write_lines (line ∷ lines) body h =
    break_after line (write_lines lines body) (ground arith)
    ∙ ap (λ rest. with_return line ∷ rest) (split-write_lines lines body (ground arith))

headers-lack : (from : String) (m : Message) → all_lack 10 (headers from m) ≡ true
unfolding headers all_lack lacks
headers-lack from m = ground (
  arith,
  lacks-concat 10 "From: " (sanitize from),
  lacks-concat 10 "To: " (sanitize m.to),
  lacks-concat 10 "Subject: " (sanitize m.subject),
  lacks-sanitize from,
  lacks-sanitize m.to,
  lacks-sanitize m.subject,
)

-- Whatever the sender, the recipient, the subject and the text hold, the lines of a rendered message are
-- its five headers and the empty line, each ending in a carriage return, and then the lines of the text.
pub split-render :
    (from : String) (m : Message)
    → split_on 10 (render from m) ≡ map with_return (headers from m) ++ split_on 10 m.text
unfolding render
split-render from m = split-write_lines (headers from m) m.text (headers-lack from m)
