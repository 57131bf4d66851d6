-- ===== src/Net/Arp/Learn.antt =====
-- What the table of link addresses knows after a packet.
use otrix.Prelude.{
  ℕ, ◌≡◌, ◌≢◌, refl, sym, subst, List, [], ◌∷◌, ◌++◌, ◌==◌, ==_self, ne→==, Bool-cases, inl, inr,
  Option, none, some,
}
use otrix.Net.Arp.{Entry, find_mac, fill_entry, replace_first, learn}

-- Every entry of the list has an address.
abbrev pub Known : List Entry → Type 0
Known [] = Unit
Known (e ∷ es) = (e.ip ≢ 0) × Known es

-- What an entry at the end of the list adds to the search.
abbrev pub or_else {ℓ} : {A : Type ℓ} → Option A → Option A → Option A
or_else none o = o
or_else (some a) o = some a

fill_entry-append :
    (known rest : List Entry) (e new : Entry)
    → Known known
    → e.ip ≡ 0
    → fill_entry (known ++ e ∷ rest) new ≡ some (known ++ new ∷ rest)
unfolding fill_entry
fill_entry-append [] rest e new k z = rw z refl
fill_entry-append (x ∷ xs) rest e new k z =
    rw (ne→== (λ f. k.0 (sym f)), fill_entry-append xs rest e new k.1 z) refl

fill_entry-full : (known : List Entry) (new : Entry) → Known known → fill_entry known new ≡ none
unfolding fill_entry
fill_entry-full [] new k = refl
fill_entry-full (x ∷ xs) new k = rw (ne→== (λ f. k.0 (sym f)), fill_entry-full xs new k.1) refl

find_mac-append :
    (xs ys : List Entry) (a : ℕ) → find_mac (xs ++ ys) a ≡ or_else (find_mac xs a) (find_mac ys a)
unfolding find_mac
find_mac-append [] ys a = refl
find_mac-append (x ∷ xs) ys a = elim (Bool-cases (x.ip == a)) [
  | inl e ↦ rw e refl
  | inr e ↦ rw e (find_mac-append xs ys a)
]

find_mac-head : (e : Entry) (es : List Entry) → find_mac (e ∷ es) e.ip ≡ some e.mac
unfolding find_mac
find_mac-head e es = rw (==_self e.ip) refl

-- While an entry is free, the sender of a packet is learned, but behind what is known: if its address
-- has an entry already, that entry's link address is still the answer.
pub learn-find_mac :
    (known rest : List Entry) (e new : Entry)
    → Known known
    → e.ip ≡ 0
    → find_mac (learn (known ++ e ∷ rest) new) new.ip
      ≡ or_else (find_mac known new.ip) (some new.mac)
unfolding learn
learn-find_mac known rest e new k z =
    rw
      (
        fill_entry-append known rest e new k z,
        find_mac-append known (new ∷ rest) new.ip,
        find_mac-head new rest,
      )
      refl

-- When no entry is free the first one is replaced.
pub learn-full :
    (known : List Entry) (new e : Entry) (rest : List Entry)
    → Known known
    → known ≡ e ∷ rest
    → find_mac (learn known new) new.ip ≡ some new.mac
unfolding learn
learn-full known new e rest k at = rw (fill_entry-full known new k) (
    subst (λ t. find_mac (replace_first t new) new.ip ≡ some new.mac) (sym at)
      (find_mac-head new rest))
