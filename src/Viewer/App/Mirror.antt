-- ===== src/Viewer/App/Mirror.antt =====
-- `UpdateConnectionStatus` of dlv/dlv_app.cpp: what the viewer knows of a server's channels once it
-- has asked for them.
use dill.Base.{
  ℕ, ◌+◌, ◌<◌, ◌≡◌, refl, sym, ap, ◌⊎◌, inl, inr, false, some, List, [], ◌∷◌, ◌++◌, map, append-nil,
  arith, Bytes, ltb, ◌==◌, if◌then◌else◌, Bool-cases, length, drop, ◌∙◌, suc, true, All, subst,
}
use dill.Viewer.Events.{DlvDillEvent, conn_stat}
use dill.Viewer.App.{
  Dill, ChannelData, DlvApp, get_channel_names, refresh_channel_data, update_connection_status,
  is_quiting, post_event,
}
use dill.Viewer.App.Refresh.{
  Lists, AreDistinct, last_page, repaired_by, unpaired, pair_pages_lem, load_channels_lem, drop_all,
}

-- The channels by an answer of the server: where it has fewer than are known, each of its channels with
-- the page of the last known one of its name, and otherwise the known ones and those that they miss.
abbrev pub refreshed : List Bytes → List ChannelData → List ChannelData
refreshed names olds =
    if ltb (length names) (length olds)
    then map (λ name. record { page = last_page name olds 0; name = name }) names
    else olds ++ map unpaired (drop (length olds) names)

refreshed_same :
    (names : List Bytes) (olds : List ChannelData)
    → length names ≡ length olds
    → olds ≡ refreshed names olds
refreshed_same names olds e =
    let none_fewer : ltb (length names) (length olds) ≡ false = ground arith in
    rw (none_fewer, drop_all (length olds) names (omega arith)) (sym (append-nil olds))

repaired-unpaired :
    (olds : List ChannelData) (names : List Bytes)
    → map (repaired_by olds) (map unpaired names)
      ≡ map (λ name. record { page = last_page name olds 0; name = name }) names
repaired-unpaired olds [] = refl
repaired-unpaired olds (name ∷ names) =
    ap (repaired_by olds (unpaired name) ∷◌) (repaired-unpaired olds names)

-- The refresh has the channels by the answers, in its two ways.
refresh_channel_data_lem :
    (dill : Dill) (names : List Bytes) (fuel : ℕ) (a : DlvApp)
    → Lists dill names
    → AreDistinct (map unpaired names)
    → length names < fuel
    → (calls : ℕ) × (refresh_channel_data dill fuel (ltb (length names) (length a.channel_data)) a
        ≡ some (record a { channel_data = refreshed names a.channel_data; calls = calls }))
unfolding refresh_channel_data
refresh_channel_data_lem dill names fuel a v distinct enough =
    elim (Bool-cases (ltb (length names) (length a.channel_data))) [
      | inr more ↦
          let (calls, e) = load_channels_lem dill names fuel a v (omega arith) (omega arith) in
          (calls, rw more e)
      | inl fewer ↦
          let (calls, e) =
            load_channels_lem dill names fuel (record a { channel_data = [] }) v (omega arith)
              (omega arith) in
          let paired = pair_pages_lem a.channel_data (map unpaired names) distinct in
          (calls, rw (fewer, e, paired, repaired-unpaired a.channel_data names) refl)
    ]

names-repaired :
    (olds : List ChannelData) (names : List Bytes)
    → map
        (λ (d : ChannelData). d.name)
        (map (λ name. record { page = last_page name olds 0; name = name }) names)
      ≡ names
names-repaired olds [] = refl
names-repaired olds (name ∷ names) = ap (name ∷◌) (names-repaired olds names)

names-unpaired :
    (names : List Bytes) → map (λ (d : ChannelData). d.name) (map unpaired names) ≡ names
names-unpaired [] = refl
names-unpaired (name ∷ names) = ap (name ∷◌) (names-unpaired names)

pages-unpaired : (names : List Bytes) → All (λ (d : ChannelData). d.page ≡ 0) (map unpaired names)
pages-unpaired [] = tt
pages-unpaired (name ∷ names) = (refl, pages-unpaired names)

-- Channels that are known in the server's order are completed to those of the server.
names-completed :
    (olds : List ChannelData) (names rest : List Bytes)
    → names ≡ map (λ (d : ChannelData). d.name) olds ++ rest
    → map (λ (d : ChannelData). d.name) (olds ++ map unpaired (drop (length olds) names)) ≡ names
names-completed [] names rest h = names-unpaired names
names-completed (d ∷ olds) [] rest h = cc
names-completed (d ∷ olds) (name ∷ names) rest h =
    let same : d.name ≡ name = cc in
    let others : names ≡ map (λ (d : ChannelData). d.name) olds ++ rest = cc in
    rw (same, names-completed olds names rest others) refl

get_channel_names-refreshed :
    (names : List Bytes) (a : DlvApp) (ds : List ChannelData)
    → ds ≡ refreshed names a.channel_data
    → length names < length a.channel_data
      ⊎ ((rest : List Bytes) × (names ≡ get_channel_names a ++ rest))
    → get_channel_names (record a { channel_data = ds }) ≡ names
unfolding get_channel_names
get_channel_names-refreshed names a ds e h =
    elim (Bool-cases (ltb (length names) (length a.channel_data))) [
      | inl fewer ↦ rw (e, fewer) (names-repaired a.channel_data names)
      | inr more ↦ elim h [
        | inl fewer ↦ absurd (ground arith)
        | inr (rest, is_prefix) ↦ rw (e, more) (names-completed a.channel_data names rest is_prefix)
      ]
    ]

-- What the frame is told of these channels.
abbrev pub told : DlvApp → List Bytes → DlvDillEvent
told a names = conn_stat (record {
  server_addr = a.server_addr;
  server_port = a.server_port;
  channel_num = length names;
})

-- Of a server whose channels stay the same and have different names, a viewer that is not quitting asks
-- for the status in finitely many calls, with fuel for one more than there are channels, and the frame
-- is told how many channels the server has. If the viewer knew more than these, it now has the
-- server's channels in the server's order, each with the page of the last known one of its name that
-- had one. Otherwise the known ones stay as they are, whatever names they have, and the server's
-- channels at the numbers beyond them are added without a page; if the known ones were the first ones
-- of the server, in its order, the viewer then has the server's channels in the server's order.
pub update_connection_status_lem :
    (dill : Dill) (names : List Bytes) (fuel : ℕ) (a : DlvApp)
    → Lists dill names
    → AreDistinct (map unpaired names)
    → length names < fuel
    → is_quiting a ≡ false
    → (a' : DlvApp) × (update_connection_status dill fuel a ≡ some a')
      × (a'.channel_data ≡ refreshed names a.channel_data)
      × (a'.posted ≡ a.posted ++ (told a names ∷ []))
      × (is_quiting a' ≡ false)
      × (length names < length a.channel_data
            ⊎ ((rest : List Bytes) × (names ≡ get_channel_names a ++ rest))
          → get_channel_names a' ≡ names)
unfolding update_connection_status get_channel_names is_quiting
update_connection_status_lem dill names fuel a v distinct enough running =
    elim (Bool-cases (length names == length a.channel_data)) [
      | inl same ↦
          let known : a.channel_data ≡ refreshed names a.channel_data =
            refreshed_same names a.channel_data (ground arith) in
          (
            post_event (told a names) (record a { calls = a.calls + 1 }),
            rw (running, v.available a.calls, same) refl,
            known,
            refl,
            running,
            get_channel_names-refreshed names a a.channel_data known,
          )
      | inr other ↦
          let (calls, e) =
            refresh_channel_data_lem dill names fuel (record a { calls = a.calls + 1 }) v distinct
              enough in
          (
            post_event (told a names)
                (record a { channel_data = refreshed names a.channel_data; calls = calls }),
            rw (v.available a.calls, e, other, running, v.available a.calls) refl,
            refl,
            refl,
            running,
            get_channel_names-refreshed names a (refreshed names a.channel_data) refl,
          )
    ]

refreshed_none : (olds : List ChannelData) → refreshed [] olds ≡ []
refreshed_none [] = refl
refreshed_none (d ∷ olds) =
    let fewer : ltb 0 (suc (length olds)) ≡ true = ground arith in rw fewer refl

refreshed_all : (names : List Bytes) → refreshed names [] ≡ map unpaired names
refreshed_all names =
    let none_fewer : ltb (length names) 0 ≡ false = ground arith in rw none_fewer refl

-- While the server cannot be asked, it answers that it has no channels, and a viewer that is not
-- quitting forgets all of them. Once the server answers again, with channels that stay the same and
-- have different names, all its channels are there and none has a page, whatever pages
-- they had before.
pub lost_pages :
    (lost found : Dill) (names : List Bytes) (fuel : ℕ) (a : DlvApp)
    → Lists lost []
    → Lists found names
    → AreDistinct (map unpaired names)
    → length names < fuel
    → is_quiting a ≡ false
    → (a' a'' : DlvApp) × (update_connection_status lost fuel a ≡ some a')
      × (a'.channel_data ≡ [])
      × (update_connection_status found fuel a' ≡ some a'')
      × (get_channel_names a'' ≡ names)
      × All (λ d. d.page ≡ 0) a''.channel_data
unfolding is_quiting get_channel_names
lost_pages lost found names fuel a none_there there distinct enough running =
    let (a', e, cleared, _, running', _) =
      update_connection_status_lem lost [] fuel a none_there tt (omega arith) running in
    let (a'', e', loaded, _, _, _) =
      update_connection_status_lem found names fuel a' there distinct enough running' in
    let forgotten : a'.channel_data ≡ [] = cleared ∙ refreshed_none a.channel_data in
    let back : a''.channel_data ≡ map unpaired names =
      loaded ∙ ap (refreshed names) forgotten ∙ refreshed_all names in
    (
      a',
      a'',
      e,
      forgotten,
      e',
      ap (map (λ (d : ChannelData). d.name)) back ∙ names-unpaired names,
      subst (All (λ d. d.page ≡ 0)) (sym back) (pages-unpaired names),
    )
