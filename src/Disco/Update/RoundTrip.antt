-- ===== src/Disco/Update/RoundTrip.antt =====
-- src/riaps/discd/discs.py: the text of a client, as it is built for a lookup and read for an
-- update.
use riaps_pycom.Prelude.{
  append_assoc, ℕ, ◌≡◌, refl, ap, ◌∙◌, true, some, List, [], ◌∷◌, ◌++◌, Text, Lacks, split,
  text_eq_refl, find, split_from-piece, split_from-last, arith,
}
use riaps_pycom.Disco.Keys.{
  Scope, global, local, internal, Site, Client, slash, colon, client_text, base_key, build_value,
}
use riaps_pycom.Disco.Service.{Entry, Service}
use riaps_pycom.Disco.Update.{
  Target, Update, handle_update, updates, is_here, parse_client, target, with_port,
}

-- No name holds a separator of the texts that it goes into.
pub record IsPlain (site : Site) (app : Text) (c : Client) : Type 0 where
  pub app_plain : Lacks slash app
  pub actor_plain : Lacks slash c.actor_name × Lacks colon c.actor_name
  pub host_plain : Lacks slash c.actor_host
  pub instance_plain : Lacks slash c.instance_name
  pub port_plain : Lacks slash c.port_name × Lacks colon c.port_name
  pub mac_plain : Lacks slash site.mac_address × Lacks colon site.mac_address

-- The fields of the client, as the service reads them.
abbrev pub target_of : Text → Scope → Client → Target
target_of app scope c = record {
  app_name = app;
  actor_name = c.actor_name;
  actor_host = c.actor_host;
  instance_name = c.instance_name;
  port_name = c.port_name;
  scope = scope;
}

abbrev pub update_to : Target → (host port : Text) → Update
update_to t host port_ = record { to = t; host = host; port = port_ }

Lacks-append : (sep : ℕ) (a b : Text) → Lacks sep a → Lacks sep b → Lacks sep (a ++ b)
Lacks-append sep [] b la lb = lb
Lacks-append sep (x ∷ a) b la lb = (la.0, Lacks-append sep a b la.1 lb)

abbrev joined : List Text → Text → Text
joined [] tail = tail
joined (p ∷ ps) tail = p ++ slash ∷ joined ps tail

abbrev AllLack : List Text → Type 0
AllLack [] = Unit
AllLack (p ∷ ps) = Lacks slash p × AllLack ps

split-joined :
    (ps : List Text) (tail : Text)
    → AllLack ps
    → Lacks slash tail
    → split slash (joined ps tail) ≡ ps ++ tail ∷ []
split-joined [] tail l lt = split_from-last slash [] tail lt
split-joined (p ∷ ps) tail l lt =
    split_from-piece slash [] p (joined ps tail) l.0
    ∙ ap (λ (r : List Text). p ∷ r) (split-joined ps tail l.1 lt)

joined-append : (ps : List Text) (s t : Text) → joined ps s ++ t ≡ joined ps (s ++ t)
joined-append [] s t = refl
joined-append (p ∷ ps) s t =
    append_assoc p (slash ∷ joined ps s) t
    ∙ ap (λ (u : Text). p ++ slash ∷ u) (joined-append ps s t)

abbrev pieces : Text → Client → List Text
pieces app c = [] ∷ app ∷ c.actor_name ∷ c.actor_host ∷ c.instance_name ∷ []

pieces-AllLack :
    (site : Site) (app : Text) (c : Client) → IsPlain site app c → AllLack (pieces app c)
pieces-AllLack site app c p =
    (tt, (p.app_plain, (p.actor_plain.0, (p.host_plain, (p.instance_plain, tt)))))

parse-tail :
    (app : Text) (c : Client) (tail : Text) (ps : List Text)
    → AllLack (pieces app c)
    → Lacks slash tail
    → split colon tail ≡ ps
    → parse_client (joined (pieces app c) tail)
      ≡ with_port app c.actor_name c.actor_host c.instance_name ps
unfolding parse_client
parse-tail app c tail ps l lt h =
    ap target (split-joined (pieces app c) tail l lt)
    ∙ ap (with_port app c.actor_name c.actor_host c.instance_name) h

-- If no name holds a slash or a colon that would cut it, reading the text of a client gives back
-- the application, the actor, its host, the instance, the port and the scope that it was built
-- from, for every scope.
pub parse_client-client_text :
    (site : Site) (app : Text) (scope : Scope) (c : Client)
    → IsPlain site app c
    → parse_client (client_text site app scope c) ≡ some (target_of app scope c)
unfolding client_text
parse_client-client_text site app global c p =
    parse-tail app c c.port_name (c.port_name ∷ []) (pieces-AllLack site app c p) p.port_plain.0
      (split_from-last colon [] c.port_name p.port_plain.1)
parse_client-client_text site app local c p =
    ap parse_client (joined-append (pieces app c) c.port_name (colon ∷ site.mac_address))
    ∙ parse-tail app c (c.port_name ++ colon ∷ site.mac_address)
        (c.port_name ∷ site.mac_address ∷ []) (pieces-AllLack site app c p)
        (Lacks-append slash c.port_name (colon ∷ site.mac_address) p.port_plain.0
          (refl, p.mac_plain.0))
        (split_from-piece colon [] c.port_name site.mac_address p.port_plain.1
          ∙ ap (λ (r : List Text). c.port_name ∷ r)
              (split_from-last colon [] site.mac_address p.mac_plain.1))
parse_client-client_text site app internal c p =
    let tail = colon ∷ (site.mac_address ++ colon ∷ c.actor_name) in
    ap parse_client (joined-append (pieces app c) c.port_name tail)
    ∙ parse-tail app c (c.port_name ++ tail) (c.port_name ∷ site.mac_address ∷ c.actor_name ∷ [])
        (pieces-AllLack site app c p)
        (Lacks-append slash c.port_name tail p.port_plain.0 (
          refl,
          Lacks-append slash site.mac_address (colon ∷ c.actor_name) p.mac_plain.0
              (refl, p.actor_plain.0),
        ))
        (split_from-piece colon [] c.port_name (site.mac_address ++ colon ∷ c.actor_name)
            p.port_plain.1
          ∙ ap (λ (r : List Text). c.port_name ∷ r)
              (split_from-piece colon [] site.mac_address c.actor_name p.mac_plain.1
                ∙ ap (λ (r : List Text). site.mac_address ∷ r)
                    (split_from-last colon [] c.actor_name p.actor_plain.1)))

here :
    {S : Type 0} (s : Service S) (app : Text) (scope : Scope) (c : Client) {e : Entry}
    → find (base_key app c.actor_name) s.clients ≡ some e
    → c.actor_host ≡ s.site.host_address
    → is_here s (target_of app scope c) ≡ true
here s app scope c k h = ground (arith, text_eq_refl s.site.host_address)

split-value :
    (host port_ : Text)
    → Lacks colon host
    → Lacks colon port_
    → split colon (build_value host port_) ≡ host ∷ port_ ∷ []
unfolding build_value
split-value host port_ lh lp =
    split_from-piece colon [] host port_ lh
    ∙ ap (λ (r : List Text). host ∷ r) (split_from-last colon [] port_ lp)

-- A client that was enrolled by a lookup, whose actor is registered at this service and whose host
-- is this one, is sent the host and the port of a new provider, under its own names: the note of
-- the database makes exactly one update. The other clients of the note are served as before.
pub handle_update-client_text :
    {S : Type 0} (s : Service S) (app : Text) (scope : Scope) (c : Client) {e : Entry}
    (key host port_ : Text) (others : List Text) {us : List Update}
    → IsPlain s.site app c
    → find (base_key app c.actor_name) s.clients ≡ some e
    → c.actor_host ≡ s.site.host_address
    → Lacks colon host
    → Lacks colon port_
    → handle_update (key, build_value host port_, others) s ≡ some us
    → handle_update (key, build_value host port_, client_text s.site app scope c ∷ others) s
      ≡ some (update_to (target_of app scope c) host port_ ∷ us)
unfolding handle_update updates
handle_update-client_text s app scope c key host port_ others p k h lh lp u = ground (
  arith,
  split-value host port_ lh lp,
  parse_client-client_text s.site app scope c p,
  here s app scope c k h,
)
