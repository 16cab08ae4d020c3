-- ===== src/Invitation.antt =====
-- api/internal/invitation: the mail that invites to the panel.
use Prim.Native.String.{◌++◌ as concat}
use ecosystem_complete.Prelude.{String, ◌==◌, if◌then◌else◌}
use ecosystem_complete.Prelude.Text.{trim_space, trim_right_of}
use ecosystem_complete.Runtime.{Env, Message}
use ecosystem_complete.Runtime.Exec.{Action, publish}

-- New
unfoldable pub invitation_origin : String → String
unfolding trim_space trim_right_of
invitation_origin origin = trim_right_of 47 (trim_space origin)

unfoldable pub greeting : String → String
unfolding trim_space
greeting name = if trim_space name == "" then "Hola" else concat "Hola " (trim_space name)

abbrev pub registration_page : String → String
registration_page origin =
    if origin == "" then "la página de registro de melZone" else concat origin "/registro"

unfoldable pub invitation_mail : String → String → String → Message
unfolding greeting
invitation_mail origin email name = record {
  to = email;
  subject = "Te invitaron al panel de melZone";
  text = concat (greeting name) (
      concat
        ",\n\nUn administrador te invitó al panel de melZone.\n\nSi todavía no tenés cuenta con esta dirección, registrate acá: "
        (concat (registration_page origin)
          "\n\nTe vamos a mandar un código de seis dígitos para confirmar la dirección; la cuenta se crea\nrecién cuando lo ingreses.\n\nSi ya tenés cuenta, iniciá sesión con la misma dirección. El administrador te va a dar el\nacceso que necesites: la invitación por sí sola no otorga nada.\n\nSi no esperabas este mensaje, podés ignorarlo.\n"));
}

-- Service.Invite, with a publisher
unfoldable pub invite : {E : Type 0} → Env → String → String → String → Action E
unfolding invitation_mail
invite env origin email name = publish env (invitation_mail origin email name)
