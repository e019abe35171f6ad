-- ===== src/Channel/Registers.antt =====
-- The registers of a channel over the parcels that it is given (`updateChannel` of
-- libdill/src/server_channel.cpp).
use dill.Base.{
  ◌≡◌, refl, ◌∙◌, true, ◌&&◌, Option, some, List, [], ◌∷◌, ◌++◌, arith, Bytes, ◌==◌, if◌then◌else◌,
  ==_iff, bytes_eq, map_find, map_find-map_put, subst, ap, sym,
}
use dill.Protocol.{DillParcel}
use dill.Protocol.Ops.{priority_register}
use dill.Channel.{DillServerChannel, update_channel, archive_log}
use dill.Channel.Sends.{SentTo, writes-SentTo}

-- The channel after some parcels, logs and register updates in any order.
unfoldable pub updates : List DillParcel → DillServerChannel → DillServerChannel
updates [] c = c
updates (p ∷ ps) c = updates ps (update_channel c p).0

-- The value that the last register update of a key among the parcels gave it, and the former value if
-- there is none.
unfoldable pub last_value : Bytes → List DillParcel → Option Bytes → Option Bytes
last_value key [] former = former
last_value key (p ∷ ps) former =
    last_value key ps
      (if p.op == priority_register && bytes_eq p.str1 key then some p.str2 else former)

-- What one parcel does to a key and to the subscribers.
value-update_channel :
    (c : DillServerChannel) (p : DillParcel) (key : Bytes)
    → let c' = (update_channel c p).0 in
      (c'.subscribers ≡ c.subscribers)
      × (map_find key c'.registers ≡ (
          if p.op == priority_register && bytes_eq p.str1 key
          then some p.str2
          else map_find key c.registers))
unfolding update_channel archive_log
value-update_channel c p key = ground (arith, map_find-map_put p.str1 key p.str2 c.registers)

values-updates :
    (ps : List DillParcel) (c : DillServerChannel) (key : Bytes)
    → let c' = updates ps c in
      (c'.subscribers ≡ c.subscribers)
      × (map_find key c'.registers ≡ last_value key ps (map_find key c.registers))
unfolding updates last_value
values-updates [] c key = (refl, refl)
values-updates (p ∷ ps) c key =
    let (same, value) = value-update_channel c p key in
    let (same', value') = values-updates ps (update_channel c p).0 key in
    (same' ∙ same, value' ∙ ap (last_value key ps) value)

last_value-append :
    (key : Bytes) (ps qs : List DillParcel) (former : Option Bytes)
    → last_value key (ps ++ qs) former ≡ last_value key qs (last_value key ps former)
unfolding last_value
last_value-append key [] qs former = refl
last_value-append key (p ∷ ps) qs former = last_value-append key ps qs _

-- A channel has been given some parcels, logs and register updates in any order, and is given a register
-- update. The update is sent to each subscriber that the channel had, once and in order, and nothing
-- else is sent; the logs and everything but the registers stay as they are; and each key has then the
-- value of its last update among all these parcels, or the one that it had before them if there is
-- none.
pub registers_lem :
    (c : DillServerChannel) (ps : List DillParcel) (p : DillParcel) (key : Bytes)
    → p.op ≡ priority_register
    → let before = updates ps c in
      let (after, sent) = update_channel before p in
      SentTo c.subscribers p sent
      × (after ≡ record before { registers = after.registers })
      × (map_find key after.registers ≡ last_value key (ps ++ (p ∷ [])) (map_find key c.registers))
unfolding update_channel last_value
registers_lem c ps p key h =
    let before = updates ps c in
    let register : (p.op == priority_register) ≡ true = (==_iff p.op priority_register).1 h in
    let (same, value) = values-updates ps c key in
    let (_, last) = value-update_channel before p key in
    (
      subst (λ conns. SentTo conns p (update_channel before p).1) same
          (rw register (writes-SentTo before.subscribers p)),
      rw register refl,
      last
          ∙ ap (last_value key (p ∷ [])) value
          ∙ sym (last_value-append key ps (p ∷ []) (map_find key c.registers)),
    )
