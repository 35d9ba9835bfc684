-- ===== src/Redis/Replies.antt =====
-- The reading methods of internal/store/redis/state_store.go: what each gives of the content.
use argus_go.Base.{
  String, Bool, true, false, Option, none, some, List, ok, err, Eff, ◌>>=◌, attempt, ◌≡◌, sym, refl,
  ◌∙◌, ◌⊎◌, inl, inr,
}
use argus_go.Base.Effect.{redis_nil}
use argus_go.Store.{ParentState}
use argus_go.Store.Contract.{Content, has, grouping, Gives}
use argus_go.Redis.{
  RedisClient, Json, StateCodec, children_key, parent_key, fetched, get_parent, get_alert,
  get_children, get_pending_resolve,
}
use argus_go.Redis.Commands.{Holds}
use argus_go.Redis.Server.{Entry, IsServer}
use argus_go.Redis.Keys.{Single}
use argus_go.Redis.Represents.{Stored, Lasting, same-Represents, Stored-cases, Lasting-cases}

module _ {B W : Type 0} (client : RedisClient B W) (codec : StateCodec B)
    (entry : W → String → Entry B) (member : W → String → String → Bool) where
  module _ (server : IsServer client entry member) where
    module _ {A : Type 0} (failed malformed : String) (reader : Json B A) (w : W) (c : Content)
        (holds : Holds client codec entry member w c) {key : String} (single : Single key) where
      read : Eff W (Option A)
      read = attempt (client.get key) >>= fetched failed malformed reader.unmarshal

      untouched : Holds client codec entry member (client.get key w).1 c
      untouched =
          same-Represents codec _ _ _ _ c holds (λ j. server.entry-get w key j)
            (λ p x. server.member-get w key p x)

      nothing-Gives :
          (client.get key w).0 ≡ err redis_nil
          → Gives (Holds client codec entry member) c none (read w)
      unfolding read
      nothing-Gives replied = (rw replied refl, rw replied untouched)

      bytes-Gives :
          (l : B) (a : A)
          → (client.get key w).0 ≡ ok l
          → reader.unmarshal l ≡ ok a
          → Gives (Holds client codec entry member) c (some a) (read w)
      unfolding read
      bytes-Gives l a replied reads = (rw (replied, reads) refl, rw (replied, reads) untouched)

      lasting-Gives :
          (d : Option A)
          → Lasting reader (entry w key) d
          → Gives (Holds client codec entry member) c d (read w)
      lasting-Gives d stored = elim (Lasting-cases reader (entry w key) d stored) [
        | inl (absent, same) ↦
            rw same (nothing-Gives (server.get_missing w key absent (holds.no_sets single)))
        | inr (l, a, there, same, reads) ↦
            rw same (bytes-Gives l a (server.get_lasting w key l there) reads)
      ]

      may_expire :
          (d : Option A)
          → Stored reader (entry w key) d
          → (q : Option A) × Gives (Holds client codec entry member) c q (read w)
            × ((q ≡ none) ⊎ (q ≡ d))
      may_expire d stored = elim (Stored-cases reader (entry w key) d stored) [
        | inl (absent, same) ↦
            (none, nothing-Gives (server.get_missing w key absent (holds.no_sets single)), inl refl)
        | inr (l, true, a, there, same, reads) ↦
            (some a, bytes-Gives l a (server.get_lasting w key l there) reads, inr (sym same))
        | inr (l, false, a, there, same, reads) ↦ elim (server.get_expiring w key l there) [
          | inl replied ↦ (some a, bytes-Gives l a replied reads, inr (sym same))
          | inr expired ↦ (none, nothing-Gives expired, inl refl)
        ]
      ]

    pub get_alert-Gives :
        (w : W) (c : Content) (k : String)
        → Holds client codec entry member w c
        → Gives (Holds client codec entry member) c (c.alerts k) (get_alert client codec k w)
    unfolding get_alert read
    get_alert-Gives w c k holds =
        lasting-Gives _ _ codec.alert w c holds (Single.alert k) (c.alerts k) (holds.alerts k)

    pub get_pending_resolve-Gives :
        (w : W) (c : Content) (k : String)
        → Holds client codec entry member w c
        → Gives
            (Holds client codec entry member)
            c
            (c.pending k)
            (get_pending_resolve client codec k w)
    unfolding get_pending_resolve read
    get_pending_resolve-Gives w c k holds =
        lasting-Gives _ _ codec.pending w c holds (Single.pending k) (c.pending k) (holds.pending k)

    pub get_parent-Gives :
        (w : W) (c : Content) (em k value : String)
        → Holds client codec entry member w c
        → (q : Option ParentState) × Gives
            (Holds client codec entry member)
            c
            q
            (get_parent client codec em k value w)
          × ((q ≡ none) ⊎ (q ≡ c.windows (grouping em k value)))
    unfolding get_parent parent_key read
    get_parent-Gives w c em k value holds =
        may_expire _ _ codec.parent w c holds (Single.window (grouping em k value))
          (c.windows (grouping em k value)) (holds.windows (grouping em k value))

    pub get_children-Gives :
        (w : W) (c : Content) (p : String)
        → Holds client codec entry member w c
        → (js : List String) × Gives
            (Holds client codec entry member)
            c
            js
            (get_children client codec p w)
          × ((k : String) → has k js ≡ c.children p k)
    unfolding get_children
    get_children-Gives w c p holds =
        let key = children_key p in
        let (js, replied, listed) = server.s_members w key (holds.no_text p) in
        let kept =
          same-Represents codec _ _ _ _ c holds (λ j. server.entry-s_members w key j)
            (λ q x. server.member-s_members w key q x) in
        (js, (rw replied refl, rw replied kept), λ k. listed k ∙ holds.children p k)
