-- ===== src/Redis/Commands.antt =====
-- The writing methods of internal/store/redis/state_store.go: what each leaves of the content.
use argus_go.Base.{String, Bool, true, false, none, some, ok, Eff, ◌>>=◌, attempt, ◌≡◌, refl}
use argus_go.Store.{ParentState, AlertState, PendingResolve}
use argus_go.Domain.{Duration}
use argus_go.Base.Int.{pos}
use argus_go.Store.Contract.{Content, grouping, update, update_child, Leaves, InRange}
use argus_go.Redis.{
  RedisClient, StateCodec, alert_key, children_key, pending_key, parent_key, set_parent,
  delete_parent, set_alert, delete_alert, add_child, remove_child, set_pending_resolve,
  delete_pending_resolve,
}
use argus_go.Base.Effect.{or_wrapped}
use argus_go.Redis.Server.{Entry, IsServer}
use argus_go.Redis.Represents.{
  IsCodec, Represents, window-Represents, alert-Represents, pending-Represents, children-Represents,
}

module _ {B W : Type 0} (client : RedisClient B W) (codec : StateCodec B)
    (entry : W → String → Entry B) (member : W → String → String → Bool) where
  abbrev pub Holds : W → Content → Type 0
  Holds w c = Represents codec (entry w) (member w) c

  command-Leaves :
      (s : String) (m : Eff W Unit) (w : W) (c : Content)
      → (m w).0 ≡ ok tt
      → Holds (m w).1 c
      → Leaves Holds c ((attempt m >>= or_wrapped s) w)
  command-Leaves s m w c replied kept = (rw replied refl, rw replied kept)

  module _ (server : IsServer client entry member) (json : IsCodec codec) where
    pub set_alert-Leaves :
        (w : W) (c : Content) (a : AlertState)
        → Holds w c
        → Leaves Holds
            (record c { alerts = update c.alerts a.dedup_key (some a) })
            (set_alert client codec a w)
    unfolding set_alert
    set_alert-Leaves w c a holds =
        let key = alert_key a.dedup_key in
        let (l, writes, reads) = json.alert a in
        rw writes (
          command-Leaves _ (client.set key l (pos 0)) w _ (server.set_ok w key l (pos 0)) (
            alert-Represents codec _ _ _ _ c holds a.dedup_key (some (l, true)) (some a)
              (
                λ j. server.entry-set_lasting w key j l,
                λ p x. server.member-set w key p x l (pos 0),
              )
              (refl, reads)))

    pub set_pending_resolve-Leaves :
        (w : W) (c : Content) (k : String) (p : PendingResolve)
        → InRange p.requested_at
        → Holds w c
        → Leaves Holds
            (record c { pending = update c.pending k (some p) })
            (set_pending_resolve client codec k p w)
    unfolding set_pending_resolve
    set_pending_resolve-Leaves w c k p in_range holds =
        let key = pending_key k in
        let (l, writes, reads) = json.pending p in_range in
        rw writes (
          command-Leaves _ (client.set key l (pos 0)) w _ (server.set_ok w key l (pos 0)) (
            pending-Represents codec _ _ _ _ c holds k (some (l, true)) (some p)
              (
                λ j. server.entry-set_lasting w key j l,
                λ p x. server.member-set w key p x l (pos 0),
              )
              (refl, reads)))

    pub set_parent-Leaves :
        (w : W) (c : Content) (em k value : String) (p : ParentState) (ttl : Duration)
        → InRange p.created_at
        → Holds w c
        → Leaves Holds
            (record c { windows = update c.windows (grouping em k value) (some p) })
            (set_parent client codec em k value p ttl w)
    unfolding set_parent parent_key
    set_parent-Leaves w c em k value p ttl in_range holds =
        let key = parent_key em k value in
        let (l, writes, reads) = json.parent p in_range in
        let (lasts, entries) = server.entry-set w key l ttl in
        rw writes (
          command-Leaves _ (client.set key l ttl) w _ (server.set_ok w key l ttl) (
            window-Represents codec _ _ _ _ c holds (grouping em k value) (some (l, lasts)) (some p)
              (λ j. entries j, λ p x. server.member-set w key p x l ttl) reads))

    pub delete_alert-Leaves :
        (w : W) (c : Content) (k : String)
        → Holds w c
        → Leaves Holds
            (record c { alerts = update c.alerts k none })
            (delete_alert client codec k w)
    unfolding delete_alert
    delete_alert-Leaves w c k holds =
        let key = alert_key k in
        command-Leaves _ (client.del key) w _ (server.del_ok w key) (
          alert-Represents codec _ _ _ _ c holds k none none
            (λ j. server.entry-del w key j, λ p x. server.member-del w key p x) tt)

    pub delete_pending_resolve-Leaves :
        (w : W) (c : Content) (k : String)
        → Holds w c
        → Leaves Holds
            (record c { pending = update c.pending k none })
            (delete_pending_resolve client codec k w)
    unfolding delete_pending_resolve
    delete_pending_resolve-Leaves w c k holds =
        let key = pending_key k in
        command-Leaves _ (client.del key) w _ (server.del_ok w key) (
          pending-Represents codec _ _ _ _ c holds k none none
            (λ j. server.entry-del w key j, λ p x. server.member-del w key p x) tt)

    pub delete_parent-Leaves :
        (w : W) (c : Content) (em k value : String)
        → Holds w c
        → Leaves Holds
            (record c { windows = update c.windows (grouping em k value) none })
            (delete_parent client codec em k value w)
    unfolding delete_parent parent_key
    delete_parent-Leaves w c em k value holds =
        let key = parent_key em k value in
        command-Leaves _ (client.del key) w _ (server.del_ok w key) (
          window-Represents codec _ _ _ _ c holds (grouping em k value) none none
            (λ j. server.entry-del w key j, λ p x. server.member-del w key p x) tt)

    pub add_child-Leaves :
        (w : W) (c : Content) (p k : String)
        → Holds w c
        → Leaves Holds
            (record c { children = update_child c.children p k true })
            (add_child client codec p k w)
    unfolding add_child
    add_child-Leaves w c p k holds =
        let key = children_key p in
        let free = holds.no_text p in
        command-Leaves _ (client.s_add key k) w _ (server.s_add_ok w key k free) (
          children-Represents codec _ _ _ _ c holds p k true
            (λ j. server.entry-s_add w key k j free) (λ q x. server.member-s_add w key k q x free))

    pub remove_child-Leaves :
        (w : W) (c : Content) (p k : String)
        → Holds w c
        → Leaves Holds
            (record c { children = update_child c.children p k false })
            (remove_child client codec p k w)
    unfolding remove_child
    remove_child-Leaves w c p k holds =
        let key = children_key p in
        let free = holds.no_text p in
        command-Leaves _ (client.s_rem key k) w _ (server.s_rem_ok w key k free) (
          children-Represents codec _ _ _ _ c holds p k false
            (λ j. server.entry-s_rem w key k j free) (λ q x. server.member-s_rem w key k q x free))
