-- ===== src/Discovery/Hosts.antt =====
-- net/discovery.rs: the hosts that a search offers.
use remote_input_bridge.Base.{◌≡◌, refl, ap, ◌∙◌, List, [], ◌∷◌, ◌++◌, Bool, true, false, ◌||◌}
use remote_input_bridge.Base.{arith, Bool-cases, inl, inr}
use remote_input_bridge.Base.Text.{text_eq, text_eq→eq, text_eq_sym}
use remote_input_bridge.Discovery.{Text, Found, preferred_host, ip_text}
use remote_input_bridge.Discovery.Search.{has_text, push_text, offer}

-- No text stands twice.
pub IsNodup : List Text → Type 0
IsNodup [] = Unit {0}
IsNodup (t ∷ ts) = (has_text t ts ≡ false) × IsNodup ts

has_text-append :
    (t : Text) (xs ys : List Text) → has_text t (xs ++ ys) ≡ (has_text t xs || has_text t ys)
unfolding has_text
has_text-append t [] ys = refl
has_text-append t (x ∷ xs) ys = ground (arith, has_text-append t xs ys)

has_text-eq : (t u : Text) (xs : List Text) → text_eq u t ≡ true → has_text u xs ≡ has_text t xs
has_text-eq t u xs h = ap (λ v. has_text v xs) (text_eq→eq u t h)

has_text-push_text :
    (t u : Text) (xs : List Text) → has_text t (push_text u xs) ≡ (has_text t xs || text_eq u t)
unfolding push_text has_text
has_text-push_text t u xs = ground (arith, has_text-append t xs (u ∷ []), has_text-eq t u xs)

IsNodup-snoc :
    (xs : List Text) (t : Text) → IsNodup xs → has_text t xs ≡ false → IsNodup (xs ++ t ∷ [])
unfolding IsNodup has_text
IsNodup-snoc [] t h k = (refl, tt)
IsNodup-snoc (x ∷ xs) t h k = (
  ground (arith, h.0, k, has_text-append x xs (t ∷ []), text_eq_sym t x),
  IsNodup-snoc xs t h.1 (ground (arith, k)),
)

push_text-IsNodup : (t : Text) (xs : List Text) → IsNodup xs → IsNodup (push_text t xs)
unfolding push_text
push_text-IsNodup t xs h = elim (Bool-cases (has_text t xs)) [
  | inl e ↦ rw e h
  | inr e ↦ rw e (IsNodup-snoc xs t h e)
]

offer-IsNodup :
    (found : List Found) (hosts : List Text) → IsNodup hosts → IsNodup (offer found hosts)
unfolding offer
offer-IsNodup [] hosts h = h
offer-IsNodup (f ∷ rest) hosts h =
    offer-IsNodup rest _ (push_text-IsNodup _ _ (push_text-IsNodup _ _ h))

-- That a text is one of the two spellings of an entry.
pub spells : Text → List Found → Bool
spells t [] = false
spells t (f ∷ rest) =
    (text_eq (preferred_host f) t || text_eq (ip_text f.address.ip) t) || spells t rest

has_text-offer :
    (t : Text) (found : List Found) (hosts : List Text)
    → has_text t (offer found hosts) ≡ (has_text t hosts || spells t found)
unfolding offer spells
has_text-offer t [] hosts = ground arith
has_text-offer t (f ∷ rest) hosts = ground (
  arith,
  has_text-offer t rest (push_text (ip_text f.address.ip) (push_text (preferred_host f) hosts)),
  has_text-push_text t (ip_text f.address.ip) (push_text (preferred_host f) hosts),
  has_text-push_text t (preferred_host f) hosts,
)

-- The hosts offered are the preferred hosts and the addresses of the entries found, each once.
pub offer_hosts :
    (found : List Found) (t : Text)
    → IsNodup (offer found []) × (has_text t (offer found []) ≡ spells t found)
offer_hosts found t = (
  offer-IsNodup found [] (unfold IsNodup in tt),
  has_text-offer t found [] ∙ unfold has_text in refl,
)
