-- ===== src/Tests/Options.antt =====
-- Options of the command line at concrete inputs.
use evidence_tool.Base.{
  nonempty, true, String, ◌≡◌, refl, true, false, none, some, [], ◌∷◌, string_dec,
}
use evidence_tool.Base.Cut.{cut}
use evidence_tool.Base.Int.{pos}
use evidence_tool.Base.Decimal.{decimal_int, parse_int}
use evidence_tool.Base.Dict.{Dict, lookup, insert}
use evidence_tool.CommandLine.{go_on, begins_with, is_host, context_of}
use evidence_tool.CommandLine.Reserved.{HasReserved, given, printed, context_of-HasReserved}
use evidence_tool.CommandLine.Hosts.{IsPlain, context_of-IsPlain}

abbrev context : Dict String
context = ("host", "root@web-1") ∷ ("port", "443") ∷ ("config_path", "/etc/a=b") ∷ []

is_context :
    context_of (some "root@web-1") none (some (pos 443)) ("config_path=/etc/a=b" ∷ "odd" ∷ [])
    ≡ go_on context
unfolding context_of cut string_dec lookup insert parse_int decimal_int
is_context = refl

context_of-HasReserved_example :
    HasReserved (given (some "root@web-1")) (given none) (printed (some (pos 443))) context
context_of-HasReserved_example =
    context_of-HasReserved (some "root@web-1") none (some (pos 443))
      ("config_path=/etc/a=b" ∷ "odd" ∷ []) context is_context

binds_host : lookup "host" context ≡ some "root@web-1"
unfolding lookup string_dec
binds_host = refl

context_of-IsPlain_example :
    (nonempty "root@web-1" ≡ true) × (begins_with 45 "root@web-1" ≡ false) × IsPlain "root@web-1"
context_of-IsPlain_example =
    context_of-IsPlain (some "root@web-1") none (some (pos 443))
      ("config_path=/etc/a=b" ∷ "odd" ∷ []) context "root@web-1" is_context binds_host

-- a line feed at the end passes
takes_line_feed : is_host "web-1\n" ≡ true
unfolding is_host
takes_line_feed = refl

refuses_option : is_host "-oProxyCommand=x" ≡ false
unfolding is_host
refuses_option = refl
