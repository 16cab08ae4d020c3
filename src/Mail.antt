-- ===== src/Mail.antt =====
-- api/internal/mailer: the message and its delivery to an SMTP server. Mail/Worker is cmd/worker.
pub mod Lines
pub mod Worker
pub mod Start
use Prim.Native.Char.{Char, code}
use Prim.Native.String.{[] as nil, ◌∷◌ as cons, ◌++◌ as concat}
use ecosystem_complete.Prelude.{
  String, Bool, false, ◌||◌, not, Option, none, some, List, [], ◌∷◌, ◌++◌, eqb, if◌then◌else◌,
}
use ecosystem_complete.Runtime.{Message}

-- strings.NewReplacer("\r", "", "\n", "")
unfoldable pub sanitize : String → String
sanitize nil = nil
sanitize (cons c s) =
    let rest = sanitize s in if eqb (code c) 13 || eqb (code c) 10 then rest else cons c rest

-- The headers and the empty line of render
unfoldable pub headers : String → Message → List String
unfolding sanitize
headers from m =
    concat "From: " (sanitize from)
    ∷ concat "To: " (sanitize m.to)
    ∷ concat "Subject: " (sanitize m.subject)
    ∷ "MIME-Version: 1.0"
    ∷ "Content-Type: text/plain; charset=UTF-8"
    ∷ ""
    ∷ []

-- Lines, each with its line break, before a text
unfoldable pub write_lines : List String → String → String
write_lines [] body = body
write_lines (line ∷ lines) body = concat line (concat "\r\n" (write_lines lines body))

unfoldable pub render : String → Message → String
unfolding headers write_lines
render from m = write_lines (headers from m) m.text

-- The calls of Send that can return an error, in their order.
pub data SmtpCall : Type 0 where
  split_address dial handshake mail_from recipient begin_body write_body close_body quit : SmtpCall

-- What the server has taken: the recipient and the text.
abbrev pub Mailbox : Type 0
Mailbox = List (String × String)

-- What one call of Send meets: which of its calls fail, and the text that the server takes although
-- writing or closing the body reports an error, if it takes one.
pub record Attempt : Type 0 where
  pub fails : SmtpCall → Bool
  pub taken_anyway : Option String

abbrev pub taken_of : Message → Option String → Mailbox
taken_of m none = []
taken_of m (some text) = (m.to, text) ∷ []

-- SMTP.Send; true for nil. The server has the message also where Quit fails after it.
unfoldable pub send : Attempt → String → Message → Mailbox → Bool × Mailbox
unfolding render
send a from m box =
    if a.fails split_address
    then (false, box)
    else if a.fails dial
    then (false, box)
    else if a.fails handshake
    then (false, box)
    else if a.fails mail_from
    then (false, box)
    else if a.fails recipient
    then (false, box)
    else if a.fails begin_body
    then (false, box)
    else if a.fails write_body
    then (false, box ++ taken_of m a.taken_anyway)
    else if a.fails close_body
    then (false, box ++ taken_of m a.taken_anyway)
    else (not (a.fails quit), box ++ (m.to, render from m) ∷ [])
