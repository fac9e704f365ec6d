-- ===== src/Secrets/Store/Blocks.antt =====
-- The `secrets` block replaced in a file of whole nodes.
use glidesh.Common.{
  pos, ◌≡◌, refl, ◌∙◌, ap, inl, inr, String, true, false, List, [], ◌∷◌, if◌then◌else◌, any, All,
  All-map, Bool-cases, ok, err, secret, glue,
}
use glidesh.Common.Chars.{lines}
use glidesh.Secrets.Vault.{SecretRecipient}
use glidesh.Secrets.Store.{
  swap_node, replace_end, replace_secrets_block, secrets_block, secrets_block_body, ends_line,
}
use glidesh.Secrets.Store.Lines.{IsLine, HasNoFeed, lines-unlines, ends_line-glue, ends_line-line}
use glidesh.Secrets.Store.Nodes.{
  Node, lines_of, named, single, put_node, swap_first, swap_node-nodes,
}
use glidesh.Secrets.Store.Files.{
  IsFile, AreLines, text_of, lines_of-All, All-put_node, put_node-EndInText,
}
use glidesh.Secrets.Store.Edits.{end_as-named, is_nil-put_node}

replace_secrets_block_lem :
    (content encryptedkey : String) (recipients : List SecretRecipient)
    → replace_secrets_block content encryptedkey recipients
      ≡ replace_end content (
          swap_node
            (secrets_block encryptedkey recipients ∷ [])
            "secrets"
            false
            (pos 0)
            false
            (lines content))
replace_secrets_block_lem content encryptedkey recipients = unfold replace_secrets_block in refl

swap_first-put_node :
    (line key : String) (ns : List Node)
    → any (named key) ns ≡ true
    → swap_first (line ∷ []) key ns ≡ put_node key (single line) ns
swap_first-put_node line key [] e = cc
swap_first-put_node line key (n ∷ ns) e = elim (Bool-cases (named key n)) [
  | inl found ↦ rw found
  | inr other ↦ rw (other, swap_first-put_node line key ns (rw other at e))
]

-- The block is no single line, but it ends in its brace.
secrets_block-HasNoFeed :
    (encryptedkey : String) (recipients : List SecretRecipient)
    → HasNoFeed (secrets_block encryptedkey recipients)
unfolding secrets_block
secrets_block-HasNoFeed encryptedkey recipients =
    let body = secrets_block_body encryptedkey recipients in
    ends_line-glue (glue "secrets {\n" body) "}" "" ∙ unfold ends_line in refl

lines_of-put_node :
    (line key : String) (ns : List Node)
    → HasNoFeed line
    → All AreLines ns
    → All HasNoFeed (lines_of (put_node key (single line) ns))
lines_of-put_node line key ns h a = lines_of-All HasNoFeed (put_node key (single line) ns) (
    All-put_node key (single line) (λ (n : Node). All HasNoFeed (n.first ∷ n.rest)) ns (h, tt)
      (All-map AreLines (λ (n : Node). All HasNoFeed (n.first ∷ n.rest))
        (λ n. All-map IsLine HasNoFeed ends_line-line (n.first ∷ n.rest)) ns a))

-- In a file of whole nodes (every block is closed, and the last line is not blank) a change of
-- recipients replaces the first node named `secrets`, with all its lines, by the new block and
-- keeps every other node, or is refused where there is none.
pub replace_secrets_block-put_node :
    (encryptedkey : String) (recipients : List SecretRecipient) (ns : List Node)
    → IsFile ns
    → replace_secrets_block (text_of ns) encryptedkey recipients ≡ (
        if any (named "secrets") ns
        then ok (text_of (put_node "secrets" (single (secrets_block encryptedkey recipients)) ns))
        else err (secret "no `secrets` block to update (is this an initialized secrets file?)"))
replace_secrets_block-put_node encryptedkey recipients ns f =
    let block = secrets_block encryptedkey recipients in
    rw
      (
        replace_secrets_block_lem (text_of ns) encryptedkey recipients,
        lines-unlines (lines_of ns) (lines_of-All IsLine ns f.lines),
        swap_node-nodes (block ∷ []) "secrets" ns f.nodes,
      )
      (elim (Bool-cases (any (named "secrets") ns)) [
        | inl found ↦
            rw (found, swap_first-put_node block "secrets" ns found)
              (ap ok (
                end_as-named "secrets" ns (put_node "secrets" (single block) ns) found
                  (is_nil-put_node "secrets" (single block) ns)
                  (lines_of-put_node block "secrets" ns
                    (secrets_block-HasNoFeed encryptedkey recipients) f.lines)
                  (put_node-EndInText "secrets" (single block) ns (unfold secrets_block in refl)
                    f.ends)))
        | inr other ↦ rw other
      ])
