-- ===== src/Exchange/Ports.antt =====
-- The port of the data loader's server, asked for and agreed on when an operation begins.
use arinc_615a_gui_tool_suit.Base.{
  ℕ, ◌<◌, ◌^◌, ◌≡◌, refl, ◌∙◌, ==_refl, Bool, true, false, not, ◌||◌, none, some, if◌then◌else◌,
}
use arinc_615a_gui_tool_suit.Codes.{Version, arinc_615a_1, arinc_615a_2, arinc_615a_34}
use arinc_615a_gui_tool_suit.Tftp.Options.{
  CheckValues, NumberReader, options_of, additional_options, handle_option_negotiation,
  request_options,
}
use arinc_615a_gui_tool_suit.Tftp.Options.RoundTrip.{
  AreReadable, ReadsNumbers, IsPort, request_options-additional_options,
  handle_option_negotiation-options_of,
}
use arinc_615a_gui_tool_suit.Target.Operation.{initialisation_answer}
use arinc_615a_gui_tool_suit.Target.Protocol.{Protocol, port_of}
use arinc_615a_gui_tool_suit.Host
use arinc_615a_gui_tool_suit.Host.Operation.{
  initialisation_options, initialisation_options_negotiation,
}

abbrev pub hands_port_on : Version → Bool
hands_port_on arinc_615a_34 = true
hands_port_on _ = false

module _ {C O : Type 0} (values : CheckValues C) (readable : AreReadable values)
    (get_option : NumberReader) (numbers : ReadsNumbers get_option) (port : ℕ)
    (bound : port < 2 ^ 16) (host : Host.Operation.Operation) (protocol : Protocol O) where
  requested-IsPort : (b : Bool) → IsPort (if b then some port else none)
  requested-IsPort true = bound
  requested-IsPort false = tt

  answer-IsPort :
      (version : Version) (b : Bool)
      → IsPort (
          port_of
            (record { protocol_version = version; operation = protocol.operation })
            (if b then some port else none))
  answer-IsPort arinc_615a_1 b = tt
  answer-IsPort arinc_615a_2 b = tt
  answer-IsPort arinc_615a_34 b = requested-IsPort b

  decided :
      (version : Version) (b : Bool)
      → host.port_option ≡ b
      → initialisation_options_negotiation
          (λ c. values.same c values.no_check_value)
          port
          (initialisation_answer values (
            port_of
              (record { protocol_version = version; operation = protocol.operation })
              (if b then some port else none)))
          host
        ≡ hands_port_on version || not b
  unfolding initialisation_options_negotiation
  decided arinc_615a_1 true e = rw (readable.same_refl, e)
  decided arinc_615a_1 false e = rw (readable.same_refl, e)
  decided arinc_615a_2 true e = rw (readable.same_refl, e)
  decided arinc_615a_2 false e = rw (readable.same_refl, e)
  decided arinc_615a_34 true e = rw (readable.same_refl, e, ==_refl port)
  decided arinc_615a_34 false e = rw (readable.same_refl, e)

  -- The data loader asks for the port of its server if it is configured to. The target reads the
  -- options that were asked for, and answers with the port that its protocol object hands on. The
  -- data loader agrees exactly if it did not ask for a port, or the target has the version with
  -- ports.
  pub port-agreed :
      let asked = initialisation_options values port host in
      (request_options values get_option true (additional_options values asked) ≡ some asked)
      × (handle_option_negotiation values get_option
            (λ options.
              initialisation_options_negotiation
                (λ c. values.same c values.no_check_value)
                port
                options
                host)
            (options_of values (initialisation_answer values (port_of protocol asked.port)))
          ≡ hands_port_on protocol.protocol_version || not host.port_option)
  port-agreed =
      let asked = initialisation_options values port host in
      (
        (request_options-additional_options values readable get_option numbers asked
            (requested-IsPort host.port_option)).0,
        handle_option_negotiation-options_of values readable get_option numbers _
              (initialisation_answer values (port_of protocol asked.port))
              (answer-IsPort protocol.protocol_version host.port_option)
            ∙ decided protocol.protocol_version host.port_option refl,
      )
