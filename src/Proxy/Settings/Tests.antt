-- ===== src/Proxy/Settings/Tests.antt =====
-- Command lines of the proxy server.
use cs537_operating_system_u.Base.{◌≡◌, refl, List, [], ◌∷◌, ◌++◌, none, some}
use cs537_operating_system_u.Base.CString.{chars, atoi}
use cs537_operating_system_u.Proxy.Settings.{
  default_settings, parsed, parse_args, parse_rounds, next_int, read_ports, read_listeners,
  read_ipaddr, reader,
}
use cs537_operating_system_u.Proxy.Settings.Options.{
  Setting, listeners, workers, queue_size, all_words, AreComplete, apply_all, finish,
  parse_args_lem,
}

abbrev options : List Setting
options =
    listeners (chars "2") (chars "8000" ∷ chars "8001" ∷ [])
    ∷ workers (chars "4")
    ∷ queue_size (chars "10")
    ∷ []

options-AreComplete : AreComplete options
unfolding atoi
options-AreComplete = (refl, (tt, (tt, tt)))

no_option : reader (chars "-n") ≡ none
unfolding reader
no_option = refl

parse_args_lem_example :
    parse_args default_settings (all_words options ++ chars "-n" ∷ chars "1" ∷ [])
    ≡ some (finish (apply_all options default_settings) (chars "-n" ∷ chars "1" ∷ []))
parse_args_lem_example =
    parse_args_lem options default_settings (chars "-n" ∷ chars "1" ∷ []) options-AreComplete
      no_option

-- Fewer ports than were announced: `atoi` gets the NULL behind the arguments.
too_few_ports : parse_args default_settings (chars "-l" ∷ chars "2" ∷ chars "8000" ∷ []) ≡ none
unfolding parse_args parse_rounds reader read_listeners next_int read_ports atoi
too_few_ports = refl

-- An address may be missing.
no_address :
    parse_args default_settings (chars "-i" ∷ [])
    ≡ some (parsed (record default_settings { fileserver_ipaddr = none }))
unfolding parse_args parse_rounds reader read_ipaddr
no_address = refl
