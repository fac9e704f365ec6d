-- ===== src/Secrets/Store/Examples.antt =====
-- The line edits of a secrets file, after the tests of secrets/store.rs.
use glidesh.Common.{
  ◌≡◌, refl, String, List, [], ◌∷◌, ok, err, secret, glue, any, arith, if◌then◌else◌,
}
use glidesh.Common.Chars.{is_whitespace}
use glidesh.Secrets.Vault.{SecretRecipient}
use glidesh.Secrets.Store.{
  upsert_scalar, remove_node, replace_encryptedkey, replace_secrets_block, init_content,
  scalar_line, secrets_block, brace_delta, declares,
}
use glidesh.Secrets.Store.Scalars.{IsKey}
use glidesh.Secrets.Store.Nodes.{Node, named, single, put_node, AreScalars}
use glidesh.Secrets.Store.Files.{IsFile, text_of}
use glidesh.Secrets.Store.Edits.{upsert_scalar-put_node, remove_node-upsert_scalar}
use glidesh.Secrets.Store.Blocks.{replace_secrets_block-put_node}

abbrev opened : String
opened = "secrets {\n    provider \"passphrase\"\n    encryptedkey \"v1:AA\"\n}\n"

initialised : init_content "v1:AA" ≡ opened
unfolding init_content
initialised = refl

upsert_ignores_braces :
    upsert_scalar
      (glue opened
        "// a lone brace { in a comment\nnote \"has a } brace\"\ndb-password \"secret:v1:old\"\n")
      "db-password"
      "secret:v1:new"
    ≡ glue opened
        "// a lone brace { in a comment\nnote \"has a } brace\"\ndb-password \"secret:v1:new\"\n"
unfolding upsert_scalar
upsert_ignores_braces = refl

upsert_escapes :
    upsert_scalar opened "note" "say \"hi\" C:\\path"
    ≡ glue opened "note \"say \\\"hi\\\" C:\\\\path\"\n"
unfolding upsert_scalar
upsert_escapes = refl

-- The block's body and its closing brace stay behind.
upsert_on_block :
    upsert_scalar opened "secrets" "v"
    ≡ "secrets \"v\"\n    provider \"passphrase\"\n    encryptedkey \"v1:AA\"\n}\n"
unfolding upsert_scalar
upsert_on_block = refl

-- A blank line at the end is lost.
upsert_blank : upsert_scalar "a \"1\"\n\n" "a" "2" ≡ "a \"2\"\n"
unfolding upsert_scalar
upsert_blank = refl

remove_block :
    remove_node
      (glue opened "api-keys {\n    - name=\"a\" value=\"secret:v1:one\"\n}\nregion \"eu\"\n")
      "api-keys"
    ≡ glue opened "region \"eu\"\n"
unfolding remove_node
remove_block = refl

remove_absent : remove_node "region \"eu\"\n" "nothing" ≡ "region \"eu\"\n"
unfolding remove_node
remove_absent = refl

rekeyed :
    replace_encryptedkey opened "v1:NEW"
    ≡ ok ("secrets {\n    provider \"passphrase\"\n    encryptedkey \"v1:NEW\"\n}\n")
unfolding replace_encryptedkey
rekeyed = refl

replaced_block :
    replace_secrets_block
      (glue "// top comment\n" (glue opened "db-password \"secret:v1:x\"\n"))
      "agev1:NEW"
      []
    ≡ ok (
        "// top comment\nsecrets {\n    provider \"age\"\n    recipients {\n    }\n    encryptedkey \"agev1:NEW\"\n}\ndb-password \"secret:v1:x\"\n")
unfolding replace_secrets_block
replaced_block = refl

-- A comment with a brace, the block and a value.
abbrev file : List Node
file =
    single "// a lone {"
    ∷ record { first = "secrets {"; rest = "    encryptedkey \"v1:AA\"" ∷ "}" ∷ [] }
    ∷ single "region \"eu\""
    ∷ []

file-IsFile : IsFile file
unfolding brace_delta
file-IsFile = record {
  nodes = (refl, ((refl, (refl, refl)), (refl, tt)));
  lines = ground arith;
  ends = refl;
}

region : IsKey "region"
unfolding is_whitespace
region = ground arith

api_token : IsKey "api-token"
unfolding is_whitespace
api_token = ground arith

region-AreScalars : AreScalars "region" file
unfolding declares
region-AreScalars = ((λ _. refl), ((λ e. absurd (cc e)), ((λ _. refl), tt)))

upsert_scalar-put_node_example :
    (upsert_scalar (text_of file) "region" "u{s"
      ≡ text_of (put_node "region" (single (scalar_line "region" "u{s")) file))
    × IsFile (put_node "region" (single (scalar_line "region" "u{s")) file)
upsert_scalar-put_node_example =
    upsert_scalar-put_node "region" "u{s" file region file-IsFile region-AreScalars

remove_node-upsert_scalar_example :
    remove_node (upsert_scalar (text_of file) "api-token" "t\n}") "api-token" ≡ text_of file
remove_node-upsert_scalar_example =
    remove_node-upsert_scalar "api-token" "t\n}" file api_token file-IsFile
      (unfold declares in refl)

abbrev alice : SecretRecipient
alice = record { name = "alice"; key = "ssh-ed25519 AAA" }

replace_secrets_block-put_node_example :
    replace_secrets_block (text_of file) "agev1:X" (alice ∷ []) ≡ (
      if any (named "secrets") file
      then ok (text_of (put_node "secrets" (single (secrets_block "agev1:X" (alice ∷ []))) file))
      else err (secret "no `secrets` block to update (is this an initialized secrets file?)"))
replace_secrets_block-put_node_example =
    replace_secrets_block-put_node "agev1:X" (alice ∷ []) file file-IsFile
