-- ===== src/Context/Profiles.antt =====
-- The links between the profiles of a report: the second loop of contextualizeEvaluation.
use security_scan.Prelude.{
  ℕ, ◌≡◌, refl, subst, ◌↔◌, Option, none, some, List, [], ◌∷◌, In, here, there,
}
use security_scan.Context.{
  Extends, ContextualizedProfile, no_links, link, link_parent, link_profiles, parent_of,
  profile_place,
}
use security_scan.Context.Links.{
  Every, Every-link, Mirrored, Mirrored-link, Mirrored-none, In-push, In-push_new,
}

-- The profile at the place is the parent of the other one.
abbrev pub IsParent : List ContextualizedProfile → ℕ → ContextualizedProfile → Type 0
IsParent all k b =
    (a : ContextualizedProfile) × (a.place ≡ k) × (parent_of all b ≡ some a) × In b all

Every-link_parent :
    (all : List ContextualizedProfile) (o : Option ContextualizedProfile)
    (p : ContextualizedProfile) (g : Extends ContextualizedProfile)
    → parent_of all p ≡ o
    → In p all
    → Every profile_place (IsParent all) g
    → Every profile_place (IsParent all) (link_parent o p g)
Every-link_parent all none p g e m v = v
Every-link_parent all (some parent) p g e m v =
    Every-link profile_place (IsParent all) parent p g (parent, refl, e, m) v

link_profiles-Every :
    (all rest : List ContextualizedProfile) (g : Extends ContextualizedProfile)
    → ((p : ContextualizedProfile) → In p rest → In p all)
    → Every profile_place (IsParent all) g
    → Every profile_place (IsParent all) (link_profiles all rest g)
unfolding link_profiles
link_profiles-Every all [] g w v = v
link_profiles-Every all (p ∷ rest) g w v =
    link_profiles-Every all rest (link_parent (parent_of all p) p g) (λ q m. w q (there m))
      (Every-link_parent all (parent_of all p) p g refl (w p here) v)

Mirrored-link_parent :
    (o : Option ContextualizedProfile) (p : ContextualizedProfile)
    (g : Extends ContextualizedProfile)
    → Mirrored profile_place g
    → Mirrored profile_place (link_parent o p g)
Mirrored-link_parent none p g v = v
Mirrored-link_parent (some parent) p g v = Mirrored-link profile_place parent p g v

pub link_profiles-Mirrored :
    (all rest : List ContextualizedProfile) (g : Extends ContextualizedProfile)
    → Mirrored profile_place g
    → Mirrored profile_place (link_profiles all rest g)
unfolding link_profiles
link_profiles-Mirrored all [] g v = v
link_profiles-Mirrored all (p ∷ rest) g v =
    link_profiles-Mirrored all rest (link_parent (parent_of all p) p g)
      (Mirrored-link_parent (parent_of all p) p g v)

In-link_parent :
    (o : Option ContextualizedProfile) (p b : ContextualizedProfile)
    (g : Extends ContextualizedProfile) (k : ℕ)
    → In b (g.extends_from k)
    → In b ((link_parent o p g).extends_from k)
unfolding link
In-link_parent none p b g k m = m
In-link_parent (some parent) p b g k m = In-push parent.place p b g.extends_from k m

-- What is linked stays linked.
In-link_profiles :
    (all rest : List ContextualizedProfile) (b : ContextualizedProfile)
    (g : Extends ContextualizedProfile) (k : ℕ)
    → In b (g.extends_from k)
    → In b ((link_profiles all rest g).extends_from k)
unfolding link_profiles
In-link_profiles all [] b g k m = m
In-link_profiles all (p ∷ rest) b g k m =
    In-link_profiles all rest b (link_parent (parent_of all p) p g) k
      (In-link_parent (parent_of all p) p b g k m)

links_parent :
    (all rest : List ContextualizedProfile) (a b : ContextualizedProfile)
    (g : Extends ContextualizedProfile)
    → In b rest
    → parent_of all b ≡ some a
    → In b ((link_profiles all rest g).extends_from a.place)
unfolding link_profiles link
links_parent all [] a b g m e = elim m [ ]
links_parent all (p ∷ rest) a _ g here e =
    In-link_profiles all rest p (link_parent (parent_of all p) p g) a.place
      (rw e (In-push_new a.place p g.extends_from))
links_parent all (p ∷ rest) a b g (there m) e =
    links_parent all rest a b (link_parent (parent_of all p) p g) m e

-- The profile at a place extends exactly the profiles whose field parent_profile names it, as the
-- first of that name; and what extends and what is extended stand in each other's arrays.
pub link_profiles_iff :
    (all : List ContextualizedProfile) (k : ℕ) (b : ContextualizedProfile)
    → (In b ((link_profiles all all no_links).extends_from k) ↔ IsParent all k b)
      × Mirrored profile_place (link_profiles all all no_links)
link_profiles_iff all k b = (
  (
    link_profiles-Every all all no_links (λ p m. m) (λ j c m. elim m [ ]) k b,
    λ (a, at, e, m).
        subst (λ j. In b ((link_profiles all all no_links).extends_from j)) at
          (links_parent all all a b no_links m e),
  ),
  link_profiles-Mirrored all all no_links (Mirrored-none profile_place),
)
