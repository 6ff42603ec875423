-- ===== src/Tests/Directory.antt =====
-- Tests of directory/history.rs, directory/address.rs and email.rs.
use fau_portalen.Prelude.{
  ℕ, suc, ◌≤◌, ◌<◌, ◌≡◌, ◌↔◌, ◌⊎◌, refl, some, true, false, List, [], ◌∷◌, map, Memᴰ, any, all, ok,
}
use fau_portalen.Text.{Text, codes, trim, len_bytes, split, rsplit_once, is_whitespace, is_control}
use fau_portalen.Calendar.{Date}
use fau_portalen.Tests.{ascii, even_months}
use fau_portalen.Membership.Vocabulary.{CapabilityClass}
use fau_portalen.Email.{Email, parse_email}
use fau_portalen.Email.Form.{IsAddress, parse_email_iff}
use fau_portalen.Directory.History.{
  HeldRole, held_on, ended_by, role_label, label_of, active_period,
}
use fau_portalen.Directory.History.Label.{is_above, role_label-held_on, role_label-ended_by}
use fau_portalen.Directory.History.Period.{active_period-held}
use fau_portalen.Directory.Address.{
  RecipientField, Recipients, Mailto, address_spec, mailto, mailto_max_chars, bytes,
}
use fau_portalen.Directory.Address.Reader.{read_spec}
use fau_portalen.Directory.Address.Spec.{is_char, address_spec-read_spec}
use fau_portalen.Directory.Address.Link.{read_link, mailto-read_link}

abbrev leader : HeldRole
leader = record { name = codes "Leder"; class = CapabilityClass.admin; from = 100; until = 200 }

abbrev member : HeldRole
member = record { name = codes "Medlem"; class = CapabilityClass.member; from = 200; until = 300 }

abbrev roles : List HeldRole
roles = member ∷ leader ∷ []

role_label-held_on_example :
    (c : HeldRole) × (role_label even_months roles 150 ≡ some (label_of even_months c))
    × Memᴰ c roles
    × (held_on 150 c ≡ true)
    × (is_above CapabilityClass.admin c.class ≡ false)
    × (CapabilityClass.admin ≡ c.class → c.from ≤ 100)
role_label-held_on_example =
    role_label-held_on even_months roles 150 leader (Memᴰ.tail (Memᴰ.head refl)) refl

role_label-ended_by_example :
    (c : HeldRole) × (role_label even_months roles 400 ≡ some (label_of even_months c))
    × Memᴰ c roles
    × (ended_by 400 c ≡ true)
    × (300 ≤ c.until)
role_label-ended_by_example =
    role_label-ended_by even_months roles 400 refl member (Memᴰ.head refl) refl

active_period-held_example :
    ((active_period roles 250).since ≤ 250)
    × ((day : Date)
        → (active_period roles 250).since ≤ day
        → day ≤ 250
        → any (held_on day) roles ≡ true)
    × ((day : Date) → suc day ≡ (active_period roles 250).since → any (held_on day) roles ≡ false)
    × ((r : HeldRole)
        → Memᴰ r roles
        → ((active_period roles 250).since ≤ r.from) ⊎ Memᴰ r (active_period roles 250).earlier)
active_period-held_example = active_period-held roles 250 refl

abbrev kari : Email
kari = record { text = codes "kari,o@fau.no" }

abbrev ola : Email
ola = record { text = codes "ola@fau.no" }

address_spec-read_spec_example :
    (spec : Text) × (address_spec kari ≡ some spec)
    × (read_spec spec ≡ some (codes "kari,o@fau.no"))
    × (all is_char spec ≡ true)
address_spec-read_spec_example = address_spec-read_spec kari refl

abbrev both : Recipients
both = record { addresses = kari ∷ ola ∷ [] }

mailto-read_link_example :
    (specs : List Text) × (map read_spec specs
      ≡ some (codes "kari,o@fau.no") ∷ some (codes "ola@fau.no") ∷ [])
    × (((url : Text) × (mailto both RecipientField.bcc ≡ some (Mailto.link url))
          × (len_bytes url ≤ mailto_max_chars)
          × (read_link RecipientField.bcc url ≡ some (map bytes specs)))
        ⊎ ((n : ℕ) × (mailto both RecipientField.bcc ≡ some (Mailto.too_long n))
            × (mailto_max_chars < n)))
mailto-read_link_example = mailto-read_link both RecipientField.bcc refl (λ e. cc)

abbrev raw : Text
raw = codes " Ola@FAU.no "

parse_email_iff_example : (parse_email ascii raw ≡ ok ola) ↔ (
    ((local : Text) × (domain : Text) × IsAddress ascii (trim raw) local domain)
    × (ola ≡ record { text = ascii.to_lowercase (trim raw) }))
parse_email_iff_example = parse_email_iff ascii raw ola

parse_email_runs : parse_email ascii raw ≡ ok ola
unfolding parse_email trim split rsplit_once is_whitespace is_control
parse_email_runs = refl
