-- ===== src/Session/Status.antt =====
-- The channels of a running server (libdill/src/server_netio.cpp), as the viewer (dlv/dlv_app.cpp) knows
-- them once it has asked.
use dill.Base.{
  ℕ, ◌+◌, ◌≤◌, ◌<◌, ◌≡◌, refl, sym, ap, ◌∙◌, ◌⊎◌, inl, inr, Bool, true, false, none, some, List, [],
  ◌∷◌, ◌++◌, map, arith, Bytes, u32, c_str, ltb, bytes_eq, length, get_elem?, take, take_all,
  get_elem?-lt, get_elem?-some, length-map, get_elem?-map, All, All-get_elem?,
}
use dill.Protocol.{max_str}
use dill.Channel.{DillServerChannel}
use dill.Server.State.{DillServer, Pending}
use dill.Server.Loop.{Outcome, Reach, new_server, enter_loop}
use dill.Server.Registry.{get_channel_data}
use dill.Server.Channels.Registry.{AreNames, names_of, Reach-AreNames}
use dill.Viewer.App.{Dill, ChannelData, DlvApp, update_connection_status, is_quiting}
use dill.Viewer.App.Refresh.{Lists, AreDistinct, unpaired}
use dill.Viewer.App.Mirror.{update_connection_status_lem}

-- What libdill answers while the server is in a state: the parcels of the answers carry at most 23766
-- bytes of a name. The other argument tells which calls that subscribe succeed.
abbrev pub of_server : DillServer → (ℕ → Bool) → Dill
of_server s subscribes = record {
  available_channels = λ t. dill.Server.Registry.get_available_channels s;
  get_channel_name = λ t i. elim (dill.Server.Registry.get_channel_name i s) [
    | none ↦ []
    | some name ↦ take max_str name
  ];
  subscribe_channel = subscribes;
}

of_server_name :
    (s : DillServer) (i : ℕ) (c : DillServerChannel)
    → get_elem? s.channel_data i ≡ some c
    → dill.Server.Registry.get_channel_name i s ≡ some (c_str c.name)
unfolding dill.Server.Registry.get_channel_name get_channel_data
of_server_name s i c at =
    let inside : ltb i (length s.channel_data) ≡ true =
      ground (arith, get_elem?-lt s.channel_data i c at) in
    rw (inside, at) refl

of_server-Lists :
    (s : DillServer) (subscribes : ℕ → Bool)
    → length s.channel_data < u32
    → All (λ name. length name ≤ max_str) (names_of s.channel_data)
    → Lists (of_server s subscribes) (names_of s.channel_data)
unfolding dill.Server.Registry.get_available_channels
of_server-Lists s subscribes small short = record {
  available = λ t.
      let count : length (names_of s.channel_data) ≡ length s.channel_data =
        length-map _ s.channel_data in
      omega arith;
  named = λ t i name at.
      let inside : i < length s.channel_data = omega (
        arith,
        get_elem?-lt _ i name at,
        length-map (λ (c : DillServerChannel). c_str c.name) s.channel_data,
      ) in
      let (c, found) = get_elem?-some s.channel_data i inside in
      let both : some (c_str c.name) ≡ some name =
        sym (get_elem?-map (λ (c : DillServerChannel). c_str c.name) s.channel_data i c found)
        ∙ at in
      let same : c_str c.name ≡ name = ap (λ x. elim x [ none ↦ [] | some n ↦ n ]) both in
      let fits : length name ≤ max_str =
        All-get_elem? _ (names_of s.channel_data) i name short at in
      ap (λ x. elim x [ none ↦ [] | some n ↦ take max_str n ]) (of_server_name s i c found)
      ∙ ap (take max_str) same
      ∙ take_all max_str name fits;
}

unpaired-AreDistinct : (names : List Bytes) → AreNames names → AreDistinct (map unpaired names)
unpaired-AreDistinct [] h = tt
unpaired-AreDistinct (name ∷ names) h = (others names h.0, unpaired-AreDistinct names h.1)
  where
    others :
        (rest : List Bytes)
        → All (λ other. bytes_eq name other ≡ false) rest
        → All (λ (e : ChannelData). bytes_eq name e.name ≡ false) (map unpaired rest)
    others [] h = tt
    others (other ∷ rest) h = (h.0, others rest h.1)

-- Let a server that was made for fewer than 2^32 channels be in any state that it reaches, with names
-- of at most 23766 bytes, and stay in it while a viewer that has not quit asks for the status. The
-- viewer's calls end. If it knew more channels than there are, or the first ones in their order, then
-- it knows the channels of the server afterwards, in the server's order.
pub status_lem :
    (bound : Bool) (bufsize maxchannels : ℕ) {Q : Pending → Outcome → Type 0} {s : DillServer}
    (subscribes : ℕ → Bool) (a : DlvApp)
    → maxchannels < u32
    → Reach Q (enter_loop (new_server bound bufsize maxchannels)) s
    → All (λ name. length name ≤ max_str) (names_of s.channel_data)
    → is_quiting a ≡ false
    → (length s.channel_data < length a.channel_data)
      ⊎ ((rest : List Bytes) × (names_of s.channel_data
            ≡ dill.Viewer.App.get_channel_names a ++ rest))
    → (a' : DlvApp) × (update_connection_status (of_server s subscribes) (maxchannels + 1) a
        ≡ some a')
      × (dill.Viewer.App.get_channel_names a' ≡ names_of s.channel_data)
status_lem bound bufsize maxchannels {s = s} subscribes a small r short running known =
    let names = names_of s.channel_data in
    let count : length names ≡ length s.channel_data = length-map _ s.channel_data in
    let (distinct, limited) = Reach-AreNames bound bufsize maxchannels small r in
    let (a', e, _, _, _, mirrors) =
      update_connection_status_lem (of_server s subscribes) names (maxchannels + 1) a
        (of_server-Lists s subscribes (omega arith) short) (unpaired-AreDistinct names distinct)
        (omega arith) running in
    (a', e, mirrors (elim known [ inl fewer ↦ inl (omega arith) | inr prefix ↦ inr prefix ]))
