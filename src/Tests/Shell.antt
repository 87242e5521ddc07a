-- ===== src/Tests/Shell.antt =====
-- Commands over SSH at concrete inputs.
use evidence_tool.Base.{
  String, ◌≡◌, refl, none, ok, err, value_error, some, List, [], ◌∷◌, ◌++◌, join,
}
use evidence_tool.Probes.Shell.{
  default_timeout, whole, actual_args, ssh_options, command_result, not_run,
}
use evidence_tool.Base.Decimal.{decimal}
use evidence_tool.Probes.System.{timeout_expired, other_exception}
use evidence_tool.Probes.Shell.Words.{words_of, actual_args-words}

abbrev remote_args : List String
remote_args = "test" ∷ "-e" ∷ "/srv/it's here; rm -rf /" ∷ []

actual_args-words_example :
    (sent : List String) × (actual_args remote_args default_timeout "node"
      ≡ ssh_options default_timeout ++ "node" ∷ sent)
    × (words_of (join " " sent) ≡ some remote_args)
actual_args-words_example = actual_args-words remote_args default_timeout "node" refl

-- the words that are shown for a timeout take the place of those that were run
shows_safe_words :
    command_result ("curl" ∷ "u:p@h" ∷ []) (whole 7) "" (some ("curl" ∷ "h" ∷ [])) timeout_expired
    ≡ ok (not_run "command timed out after 7s: curl h")
unfolding command_result decimal join
shows_safe_words = refl

-- an exception without a handler goes on
goes_on :
    command_result ("id" ∷ []) default_timeout "" none (other_exception (value_error "utf-8"))
    ≡ err (value_error "utf-8")
unfolding command_result
goes_on = refl
