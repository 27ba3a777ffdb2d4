-- ===== src/Configuration/Tests.antt =====
-- A configuration with three entries.
use landlord.Prelude.{◌≡◌, refl, true, false, none, some, [], ◌∷◌, if◌then◌else◌}
use landlord.Text.Times.{codes, same_text}
use landlord.Configuration.{
  Section, ConfigMgr, sections, load_initial, get_string_default, get_bool_default, get_int_default,
  get_keys_by_string,
}

abbrev three_entries : Section
three_entries = record {
  text_of = λ name.
      if same_text name (codes "Appender.Server")
      then some (codes "\"2,2,0\"")
      else if same_text name (codes "Debug")
      then some (codes "yes")
      else none;
  int_of = λ name. if same_text name (codes "RoomNumbers") then some 6 else none;
  keys = codes "Appender.Server" ∷ codes "Debug" ∷ codes "RoomNumbers" ∷ [];
}

abbrev configured : ConfigMgr
configured = record { file_name = codes "a.conf"; config = three_entries }

quotes_gone : get_string_default (codes "Appender.Server") [] configured ≡ codes "2,2,0"
unfolding get_string_default same_text
quotes_gone = refl

debug_on : get_bool_default (codes "Debug") false configured ≡ true
unfolding get_bool_default same_text
debug_on = refl

rooms_found : get_int_default (codes "RoomNumbers") 1 configured ≡ 6
unfolding get_int_default same_text
rooms_found = refl

appenders_found : get_keys_by_string (codes "Appender.") configured ≡ codes "Appender.Server" ∷ []
unfolding get_keys_by_string
appenders_found = refl

empty_file_refused : (load_initial (λ f. sections []) (codes "b.conf") configured).0 ≡ false
unfolding load_initial
empty_file_refused = refl
