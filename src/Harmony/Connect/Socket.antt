-- ===== src/Harmony/Connect/Socket.antt =====
-- What a connect leaves behind: the socket, and the hub's configuration.
use homedeck.Base.{
  ◌==◌, ℕ, ◌≡◌, refl, ◌∙◌, Bool, true, false, not, Option, none, some, List, arith, if_both,
}
use homedeck.Harmony.Host.{is_valid_hub_id}
use homedeck.Harmony.Wire.{provision_info_request_body, config_request}
use homedeck.Harmony.Url.{handshake_url, web_socket_url}
use homedeck.Json.{Fields}
use homedeck.Harmony.Link.{
  Outside, Connection, drain_stale_messages, send, stopped, receive, config_fetch_timeout_ms,
}
use homedeck.Harmony.Exchange.{
  ActivityFetchResult, ok, transport_failed, parse_failed, fetch_current_activity,
}
use homedeck.Harmony.Connect.{
  hang_up, after_probe, read_config, config_answer, config_sent, connect_socket, take_id,
  handshake_answer, connect_and_fetch_config, store_config, remote_id,
}
use homedeck.Harmony.Exchange.Probe.{fetch-Same, drained-Same}

module _ (o : Outside) where
  -- The socket is open exactly on success, and then the configuration is there.
  abbrev pub Sound : Bool × Connection o → Type 0
  Sound r = (r.1.socket ≡ r.0) × (r.0 ≡ true → r.1.snapshot.has_config ≡ true)

  after_probe-Sound :
      (r : ActivityFetchResult × Connection o)
      → r.1.socket ≡ true
      → r.1.snapshot.has_config ≡ true
      → Sound (after_probe o r)
  unfolding after_probe hang_up
  after_probe-Sound (ok, c) s h = (s, λ e. h)
  after_probe-Sound (parse_failed, c) s h = (s, λ e. h)
  after_probe-Sound (transport_failed, c) s h = (refl, λ e. absurd (ground arith))

  hang_up-Sound : (c : Connection o) → Sound (false, hang_up o c)
  unfolding hang_up
  hang_up-Sound c = (refl, λ e. absurd (ground arith))

  read_config-Sound :
      (data? : Option Fields) (c : Connection o) → c.socket ≡ true → Sound (read_config o data? c)
  unfolding read_config store_config
  read_config-Sound none c s = hang_up-Sound c
  read_config-Sound (some inner) c s =
      let same = fetch-Same o (store_config o inner c) in
      after_probe-Sound (fetch_current_activity o (store_config o inner c)) (same.socket ∙ s)
        same.has_config

  config_answer-Sound :
      (r : Option (List ℕ) × Connection o) → r.1.socket ≡ true → Sound (config_answer o r)
  unfolding config_answer
  config_answer-Sound (none, c) s = hang_up-Sound c
  config_answer-Sound (some text, c) s = read_config-Sound _ c s

  config_sent-Sound : (r : Bool × Connection o) → r.1.socket ≡ true → Sound (config_sent o r)
  unfolding config_sent stopped receive
  config_sent-Sound (false, c) s = hang_up-Sound c
  config_sent-Sound (true, c) s =
      if_both Sound (stopped o c).0 _ _ (λ e. hang_up-Sound (stopped o c).1)
        (λ e. config_answer-Sound (receive o config_fetch_timeout_ms (stopped o c).1) s)

  connect_socket-Sound : (h : List ℕ) (c : Connection o) → Sound (connect_socket o h c)
  unfolding connect_socket stopped send
  connect_socket-Sound h c =
      let (connected, w) = o.connect (web_socket_url h c.hub_id) c.world in
      let (stop, c') = stopped o (record c { world = w; socket = true }) in
      if_both Sound (not connected) _ _ (λ e. (refl, λ e'. absurd (ground arith)))
        (λ e.
          if_both Sound stop _ _ (λ e'. hang_up-Sound c')
            (λ e'.
              config_sent-Sound
                (send o (config_request (drain_stale_messages o c').hub_id)
                  (drain_stale_messages o c'))
                (drained-Same o c').socket))

  take_id-Sound :
      (h : List ℕ) (id : Option (List ℕ)) (c : Connection o)
      → c.socket ≡ false
      → Sound (take_id o h id c)
  unfolding take_id
  take_id-Sound h none c s = (s, λ e. absurd (ground arith))
  take_id-Sound h (some id) c s =
      if_both Sound (not (is_valid_hub_id id)) _ _ (λ e. (s, λ e'. absurd (ground arith)))
        (λ e. connect_socket-Sound h (record c { hub_id = id }))

  handshake-Sound :
      (h : List ℕ) (r : Option (ℕ × List ℕ) × Connection o)
      → r.1.socket ≡ false
      → Sound (handshake_answer o h r)
  unfolding handshake_answer stopped
  handshake-Sound h (none, c) s = (s, λ e. absurd (ground arith))
  handshake-Sound h (some (status, body), c) s =
      if_both Sound (not (status == 200)) _ _ (λ e. (s, λ e'. absurd (ground arith)))
        (λ e.
          if_both Sound (stopped o c).0 _ _ (λ e'. (s, λ e''. absurd (ground arith)))
            (λ e'. take_id-Sound h (remote_id o body) (stopped o c).1 s))

  -- A connect that begins without a socket leaves one exactly if it succeeds, on every path through
  -- the handshake, the configuration and the first probe; then the hub's configuration is there.
  pub connect_and_fetch_config-Sound :
      (h : List ℕ) (c : Connection o) → c.socket ≡ false → Sound (connect_and_fetch_config o h c)
  unfolding connect_and_fetch_config
  connect_and_fetch_config-Sound h c s =
      let (answer, w) = o.post (handshake_url h) provision_info_request_body c.world in
      handshake-Sound h (answer, record c { world = w }) s
