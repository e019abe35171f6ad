-- ===== src/Viewer/Frame/Failed.antt =====
-- `DoSubscribeChannel` of dlv/dlv_frame.cpp, where the server cannot be told that a channel is no longer
-- subscribed.
use dill.Base.{
  ℕ, suc, ◌≡◌, refl, sym, subst, false, Option, none, some, arith, c_str, use_after_free, Result,
  ok, err, ◌==◌, get_elem?,
}
use dill.Viewer.Events.{DlvEvtDataLog, DlvEvtDataRegister}
use dill.Viewer.Desktop.{Desktop}
use dill.Viewer.Page.{DlvChannelPage, on_append_log, on_update_register}
use dill.Viewer.App.{Dill, ChannelData, get_channel_name, get_channel_page_by_id, subscribe_channel}
use dill.Viewer.Frame.{
  DlvFrame, find_tab, do_subscribe_channel, page_at, free_page, with_page, on_dill_log_data,
  on_dill_register_update,
}
use dill.Viewer.Frame.Sound.{get_elem?-set_same}

module _ (W : Desktop) (dill : Dill) where
  -- What is done to the page of the channel uses the deleted page.
  with_page_deleted :
      (i k q : ℕ) (d : ChannelData) (p : Option (DlvChannelPage W.lists)) (f : DlvFrame W)
      → get_elem? f.app.channel_data i ≡ some d
      → d.page ≡ suc q
      → find_tab (W.from_utf8 (c_str d.name)) (W.tabs f.channel_notebook) ≡ some (k, suc q)
      → get_elem? f.pages q ≡ some p
      → dill.subscribe_channel f.app.calls ≡ false
      → (act : DlvChannelPage W.lists → Result (DlvChannelPage W.lists))
      → with_page W i act (do_subscribe_channel W dill i false f) ≡ err use_after_free
  unfolding with_page do_subscribe_channel subscribe_channel get_channel_page_by_id get_channel_name
      free_page page_at
  with_page_deleted i k q d p f at is_page found there failed act =
      let gone = get_elem?-set_same f.pages q none p there in
      let nonzero : (suc q == 0) ≡ false = ground arith in
      rw
        (
          do_subscribe_channel, get_channel_name, at, found, subscribe_channel, at, failed,
          with_page, get_channel_page_by_id, at, is_page, nonzero, page_at, gone,
        )
        refl

  -- A channel has a page below the first tab with its text, and the call that ends its subscription
  -- fails. The page is deleted, but the channel keeps its address, and both handlers of the channel's
  -- data then use the deleted page.
  pub unsubscribe_failed :
      (i k q : ℕ) (d : ChannelData) (p : Option (DlvChannelPage W.lists)) (f : DlvFrame W)
      → get_elem? f.app.channel_data i ≡ some d
      → d.page ≡ suc q
      → find_tab (W.from_utf8 (c_str d.name)) (W.tabs f.channel_notebook) ≡ some (k, suc q)
      → get_elem? f.pages q ≡ some p
      → dill.subscribe_channel f.app.calls ≡ false
      → ((ev : DlvEvtDataLog)
          → ev.channel ≡ i
          → on_dill_log_data W ev (do_subscribe_channel W dill i false f) ≡ err use_after_free)
        × ((ev : DlvEvtDataRegister)
            → ev.channel ≡ i
            → on_dill_register_update W ev (do_subscribe_channel W dill i false f)
              ≡ err use_after_free)
  unfolding on_dill_log_data on_dill_register_update
  unsubscribe_failed i k q d p f at is_page found there failed =
      let g = do_subscribe_channel W dill i false f in
      (
        (λ ev e.
            subst (λ n. with_page W n (on_append_log W.lists W.date ev) g ≡ err use_after_free)
              (sym e)
              (with_page_deleted i k q d p f at is_page found there failed
                (on_append_log W.lists W.date ev))),
        (λ ev e.
            subst
              (λ n.
                with_page W n (λ p. ok (on_update_register W.lists ev p)) g ≡ err use_after_free)
              (sym e)
              (with_page_deleted i k q d p f at is_page found there failed
                (λ p. ok (on_update_register W.lists ev p)))),
      )
