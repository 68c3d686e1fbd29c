-- ===== src/Disco/Keys/Meeting.antt =====
-- src/riaps/discd/discs.py: when a lookup finds the key under which a service was registered.
use riaps_pycom.Prelude.{
  append-nil, ℕ, ◌≡◌, refl, sym, ap, ◌∙◌, ◌↔◌, Option, some, [], ◌∷◌, ◌++◌, Text, Lacks, arith,
}
use riaps_pycom.Disco.Keys.{
  Kind, Scope, global, local, internal, Site, colon, provider, owner, suffix, append_suffix,
  service_key, build_insert_key, build_lookup_key_only,
}

append_cancel : (p s t : Text) → p ++ s ≡ p ++ t → s ≡ t
append_cancel [] s t h = h
append_cancel (x ∷ p) s t h = append_cancel p s t (cc)

-- Two texts that are cut at the same separator, which the first parts lack, agree in both parts.
cut :
    (sep : ℕ) (a b s t : Text)
    → Lacks sep a
    → Lacks sep b
    → a ++ sep ∷ s ≡ b ++ sep ∷ t
    → (a ≡ b) × (s ≡ t)
cut sep [] [] s t la lb h = (refl, cc)
cut sep [] (y ∷ b) s t la lb h = ground arith
cut sep (x ∷ a) [] s t la lb h = ground arith
cut sep (x ∷ a) (y ∷ b) s t la lb h = ground (arith, cut sep a b s t la.1 lb.1)

same_key : (key s t : Text) → (◌≡◌ {A = Option Text} (some (key ++ s)) (some (key ++ t))) ↔ (s ≡ t)
same_key key s t = (λ h. append_cancel key s t (cc), λ e. ap (λ (u : Text). some (key ++ u)) e)

-- The local and the internal suffixes, apart.
same_local : (mac mac' : Text) → (colon ∷ mac ≡ colon ∷ mac') ↔ (mac ≡ mac')
same_local mac mac' = (λ h. cc, λ e. ap (λ (u : Text). colon ∷ u) e)

same_internal :
    (mac mac' name own : Text)
    → Lacks colon mac
    → Lacks colon mac'
    → (colon ∷ (mac ++ colon ∷ name) ≡ colon ∷ (mac' ++ colon ∷ own))
      ↔ ((mac ≡ mac') × (name ≡ own))
same_internal mac mac' name own l l' =
    (λ h. cut colon mac mac' name own l l' (cc), λ e. cc (e.0, e.1))

-- What the two functions return, with the kinds and the owners known.
abbrev scoped : Text → Scope → (mac name : Text) → Option Text
scoped key global mac name = some (key ++ [])
scoped key local mac name = some (key ++ colon ∷ mac)
scoped key internal mac name = some (key ++ colon ∷ (mac ++ colon ∷ name))

build_insert_key-scoped :
    (site : Site) (app actor msg_type : Text) (k : Kind) (s : Scope) (name : Text)
    → owner site app actor ≡ some name
    → build_insert_key site app actor msg_type k s
      ≡ scoped (service_key app msg_type k) s site.mac_address name
unfolding build_insert_key
build_insert_key-scoped site app actor msg_type k global name o = refl
build_insert_key-scoped site app actor msg_type k local name o = refl
build_insert_key-scoped site app actor msg_type k internal name o = rw (o, suffix, append_suffix)

build_lookup_key_only-scoped :
    (site : Site) (app msg_type client : Text) (wanted k : Kind) (s : Scope) (name : Text)
    → provider wanted ≡ some k
    → owner site app client ≡ some name
    → build_lookup_key_only site app msg_type wanted s client
      ≡ scoped (service_key app msg_type k) s site.mac_address name
unfolding build_lookup_key_only
build_lookup_key_only-scoped site app msg_type client wanted k global name p o =
    rw (p, build_lookup_key_only)
      (ap (λ (l : Text). some l) (sym (append-nil (service_key app msg_type k))))
build_lookup_key_only-scoped site app msg_type client wanted k local name p o =
    rw (p, build_lookup_key_only) refl
build_lookup_key_only-scoped site app msg_type client wanted k internal name p o =
    rw (p, build_lookup_key_only, o) refl

-- A registered service and a lookup of the same application and message type, by a kind that the
-- service's kind provides for, on two hosts whose hardware addresses hold no colon, meet at the
-- same key: always, if the message is global; exactly if the hosts are the same, if it is local;
-- exactly if the hosts and the owning actors are the same, if it is internal.
pub registration-meets-lookup :
    (here there : Site) (app msg_type actor client : Text) (wanted offered : Kind) (name own : Text)
    → provider wanted ≡ some offered
    → owner here app actor ≡ some name
    → owner there app client ≡ some own
    → Lacks colon here.mac_address
    → Lacks colon there.mac_address
    → let registered = build_insert_key here app actor msg_type offered in
      let asked = λ (s : Scope). build_lookup_key_only there app msg_type wanted s client in
      (registered global ≡ asked global)
      × ((registered local ≡ asked local) ↔ (here.mac_address ≡ there.mac_address))
      × ((registered internal ≡ asked internal)
          ↔ ((here.mac_address ≡ there.mac_address) × (name ≡ own)))
registration-meets-lookup here there app msg_type actor client wanted k name own p o o' l l' =
    let key = service_key app msg_type k in
    let mac = here.mac_address in
    let mac' = there.mac_address in
    let r = λ (s : Scope). build_insert_key-scoped here app actor msg_type k s name o in
    let a =
      λ (s : Scope). build_lookup_key_only-scoped there app msg_type client wanted k s own p o' in
    let loc = same_key key (colon ∷ mac) (colon ∷ mac') in
    let int = same_key key (colon ∷ (mac ++ colon ∷ name)) (colon ∷ (mac' ++ colon ∷ own)) in
    let si = same_internal mac mac' name own l l' in
    let sl = same_local mac mac' in
    (
      r global ∙ sym (a global),
      (
        λ h. sl.0 (loc.0 (sym (r local) ∙ h ∙ a local)),
        λ e. r local ∙ loc.1 (sl.1 e) ∙ sym (a local),
      ),
      (
        λ h. si.0 (int.0 (sym (r internal) ∙ h ∙ a internal)),
        λ e. r internal ∙ int.1 (si.1 e) ∙ sym (a internal),
      ),
    )
