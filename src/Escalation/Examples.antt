-- ===== src/Escalation/Examples.antt =====
-- A user and a command with quotes and operators in them.
use glidesh.Common.{false, ◌≡◌, refl, none, some, err, run_as_failed}
use glidesh.RunAs.{sudo, doas, su}
use glidesh.Escalation.{shell_escape, wrap, precheck, classify_failure}
use glidesh.Escalation.Words.{gap, words, expected_words, words-wrap}

quotes : shell_escape "it's" ≡ "'it'\\''s'"
unfolding shell_escape
quotes = refl

wrapped :
    (wrap "1" (record { user = "www"; method = doas; password = none }) "a && b").command
    ≡ "doas -n -u 'www' sh -c 'a && b'"
unfolding wrap
wrapped = refl

words-wrap_example :
    words gap
      (wrap "1"
        (record { user = "o'neil; id"; method = sudo; password = some "pw" })
        "echo 'x' | tee $f").command
    ≡ some (
        expected_words "1"
          (record { user = "o'neil; id"; method = sudo; password = some "pw" })
          "echo 'x' | tee $f")
words-wrap_example = words-wrap "1" "o'neil; id" "echo 'x' | tee $f" sudo (some "pw")

su_wants_a_password :
    precheck (record { user = "www"; method = su; password = none })
    ≡ err (
        run_as_failed "www" "su"
          "su requires a password; provide --ask-pass or set GLIDESH_RUNAS_PASS")
unfolding precheck
su_wants_a_password = refl

denied :
    classify_failure
      (λ t. t)
      (record { user = "www"; method = sudo; password = none })
      (record {
        exit_code = 1;
        stdout = "";
        stderr = "sudo: a password is required\n";
        stdout_cut = false;
      })
    ≡ some (run_as_failed "www" "sudo" "sudo: a password is required")
unfolding classify_failure
denied = refl
