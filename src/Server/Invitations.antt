-- ===== src/Server/Invitations.antt =====
-- Invite codes: generate_invite.rs prints them and domain/user.rs parses them.
use rsmsg.Base.{
  ◌==◌, nat_eq, text_eq, is_empty, any, ◌≡◌, refl, ap, ◌∙◌, false, some, [], ◌∷◌, ◌++◌, arith,
}
use rsmsg.Base.Text.{Text, trim, strip_prefix, split_once}
use rsmsg.Base.Int.{int_eq}
use rsmsg.Server.State.{Uuid}
use rsmsg.Server.Monad.{ok}
use rsmsg.Server.Library.{Library, UuidLaws}
use rsmsg.Server.Domain.Registration.{invite_code_prefix, parse_invite_rest, parse_invite_code}

split_once_append :
    (a b : Text) → any (λ c. c == b':') a ≡ false → split_once b':' (a ++ b':' ∷ b) ≡ some (a, b)
unfolding split_once any
split_once_append [] b e = ground arith
split_once_append (c ∷ a) b e = ground (arith, split_once_append a b)

strip_prefix_append : (p s : Text) → strip_prefix p (p ++ s) ≡ some s
unfolding strip_prefix
strip_prefix_append [] s = refl
strip_prefix_append (c ∷ p) s = ground (arith, strip_prefix_append p s)

module _ ⦃lib : Library⦄ where
  -- `format!("RSMSG:{}:{}", id, secret)`
  abbrev pub print_invite : Uuid → Text → Text
  print_invite id secret = invite_code_prefix ++ lib.show_uuid id ++ b':' ∷ secret

  parse_stripped :
      (code rest : Text)
      → strip_prefix invite_code_prefix (trim code) ≡ some rest
      → parse_invite_code code ≡ parse_invite_rest rest
  unfolding parse_invite_code
  parse_stripped code rest e = ground (arith, e)

  parse_split :
      (rest id secret : Text) (u : Uuid)
      → split_once b':' rest ≡ some (id, secret)
      → is_empty (trim secret) ≡ false
      → lib.parse_uuid id ≡ some u
      → parse_invite_rest rest ≡ ok (record { id = u; secret = secret })
  unfolding parse_invite_rest
  parse_split rest id secret u e given parsed = ground (arith, e, given, parsed)

  -- The code of an invite is parsed back to its id and its secret, where trimming leaves the code alone
  -- and the secret is not blank.
  pub parse-print_invite :
      UuidLaws lib
      → (id : Uuid) (secret : Text) → trim (print_invite id secret) ≡ print_invite id secret
      → is_empty (trim secret) ≡ false
      → parse_invite_code (print_invite id secret) ≡ ok (record { id = id; secret = secret })
  parse-print_invite laws id secret trimmed given =
      let rest = lib.show_uuid id ++ b':' ∷ secret in
      parse_stripped (print_invite id secret) rest
        (ap (strip_prefix invite_code_prefix) trimmed ∙ strip_prefix_append invite_code_prefix rest)
      ∙ parse_split rest (lib.show_uuid id) secret id
          (split_once_append (lib.show_uuid id) secret (laws.show_colon id)) given
          (laws.parse-show id)
