-- ===== src/Tests/Mails.antt =====
-- Examples for Mail.
use ecosystem_complete.Prelude.{
  ◌≡◌, refl, ◌≤◌, ◌+◌, ◌&&◌, not, count_where, String, Bool, true, false, Option, none, some, List,
  [], ◌∷◌, ◌++◌, ◌==◌, map, if◌then◌else◌,
}
use ecosystem_complete.Prelude.Split.{split_on}
use ecosystem_complete.Runtime.{Message}
use ecosystem_complete.Mail.{SmtpCall, Attempt, headers, render}
use ecosystem_complete.Mail.Lines.{with_return, split-render}
use ecosystem_complete.Mail.Worker.{
  Delivery, acknowledged, rejected, unsettled, handle_deliveries, is_unsettled, is_acknowledged,
  is_begun, is_sent, meets, handle_deliveries_lem,
}

abbrev injection : Message
injection = record { to = "a@x.com"; subject = "Hi\r\nBcc: b@x.com"; text = "one\ntwo" }

split-render_example :
    split_on 10 (render "melia" injection)
    ≡ map with_return (headers "melia" injection) ++ split_on 10 "one\ntwo"
split-render_example = split-render "melia" injection

-- The payload is the address, and "" cannot be read.
abbrev decode : String → Option Message
decode s = if s == "" then none else some (record { to = s; subject = "Hi"; text = "hello" })

abbrev smooth : Attempt
smooth = record { fails = λ c. false; taken_anyway = none }

-- The server refuses the recipient.
abbrev refuses : SmtpCall → Bool
refuses SmtpCall.recipient = true
refuses _ = false

-- The connection breaks off after the text.
abbrev breaks_off : SmtpCall → Bool
breaks_off SmtpCall.close_body = true
breaks_off _ = false

-- A message whose Ack is lost and that comes again, one that is refused, an unreadable one, and one
-- that is taken although its conversation breaks off.
abbrev deliveries : List Delivery
deliveries =
    record { payload = "a@x.com"; attempt = smooth; settles = false }
    ∷ record { payload = "a@x.com"; attempt = smooth; settles = true }
    ∷ record { payload = "bad"; attempt = record smooth { fails = refuses }; settles = true }
    ∷ record { payload = ""; attempt = smooth; settles = true }
    ∷ record {
      payload = "c@x.com";
      attempt = record { fails = breaks_off; taken_anyway = some "hello" };
      settles = true;
    }
    ∷ []

abbrev to_alice : String × String → Bool
to_alice (to, text) = to == "a@x.com"

handle_deliveries_lem_example :
    let (answers, box') = handle_deliveries decode "melia" deliveries [] in
    (map is_unsettled answers ≡ map (λ d. not d.settles) deliveries)
    × (map is_acknowledged answers ≡ map (λ d. d.settles && is_sent decode "melia" d) deliveries)
    × (count_where to_alice []
          + count_where
              (λ d. is_sent decode "melia" d && meets decode "melia" to_alice d)
              deliveries
        ≤ count_where to_alice box')
    × (count_where to_alice box'
        ≤ count_where to_alice [] + count_where (is_begun decode "melia") deliveries)
handle_deliveries_lem_example = handle_deliveries_lem decode "melia" deliveries [] to_alice

answered :
    (handle_deliveries decode "melia" deliveries []).0
    ≡ unsettled ∷ acknowledged ∷ rejected ∷ rejected ∷ rejected ∷ []
unfolding handle_deliveries
answered = refl
