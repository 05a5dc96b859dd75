-- ===== src/Session/Changes.antt =====
-- What handlers that run at the same time may change in Redis: they store sessions, as createSession
-- of mlnserver/sessionManager.cpp and the hset that follows it do, and sessions expire.
use mlnserver_web.Prelude.{
  ℕ, ◌≡◌, ◌⊎◌, refl, ◌∙◌, ap, sym, inl, inr, none, some, [], ◌∷◌, Bytes, codes,
}
use mlnserver_web.Platform.{Fields}
use mlnserver_web.Number.{to_string}
use mlnserver_web.Redis.Containers.{find}
use mlnserver_web.Session.{gen_session_key}
use mlnserver_web.Session.Laws.{gen_session_key_injective}

-- What the hash at each key holds.
abbrev pub Hashes : Type 0
Hashes = Bytes → Fields

-- The field is as before.
abbrev Kept : Hashes → Hashes → Bytes → Bytes → Type 0
Kept h h' key field = find field (h' key) ≡ find field (h key)

-- The field is that of a session of the user whose key this is.
abbrev Written : Hashes → Bytes → Bytes → Type 0
Written h key field =
    (n : ℕ) × (key ≡ gen_session_key n)
    × (find field (h key) ≡ find field ((codes "mbuid", to_string n) ∷ []))

-- Sessions may have been stored, and all else is as before.
abbrev pub OnlyStores : Hashes → Hashes → Type 0
OnlyStores h h' = (key field : Bytes) → Kept h h' key field ⊎ Written h' key field

-- Sessions may have been stored, and fields may be gone.
abbrev pub StoresOrExpires : Hashes → Hashes → Type 0
StoresOrExpires h h' =
    (key field : Bytes)
    → (Kept h h' key field ⊎ Written h' key field) ⊎ (find field (h' key) ≡ none)

-- HMSET alone: each field of each key is as before or as given.
abbrev pub Puts : Bytes → Fields → Hashes → Hashes → Type 0
Puts key fields h h' =
    (other field : Bytes)
    → Kept h h' other field ⊎ ((key ≡ other) × (find field (h' other) ≡ find field fields))

-- A kind of change that any number of handlers make together, if each makes it.
pub record ChangeLaws (R : Hashes → Hashes → Type 0) : Type 0 where
  pub nothing : (h : Hashes) → R h h
  pub after : (h h' h'' : Hashes) → R h h' → R h' h'' → R h h''
  pub stored : (h h' : Hashes) → OnlyStores h h' → R h h'

Kept-after :
    (h h' h'' : Hashes) (key field : Bytes)
    → Kept h' h'' key field
    → Kept h h' key field ⊎ Written h' key field
    → Kept h h'' key field ⊎ Written h'' key field
Kept-after h h' h'' key field same (inl before) = inl (same ∙ before)
Kept-after h h' h'' key field same (inr (n, own, written)) = inr (n, own, same ∙ written)

stores_after : (h h' h'' : Hashes) → OnlyStores h h' → OnlyStores h' h'' → OnlyStores h h''
stores_after h h' h'' first second key field = elim (second key field) [
  | inl same ↦ Kept-after h h' h'' key field same (first key field)
  | inr written ↦ inr written
]

pub OnlyStores-ChangeLaws : ChangeLaws OnlyStores
OnlyStores-ChangeLaws = record {
  nothing = λ h key field. inl refl;
  after = stores_after;
  stored = λ h h' change. change;
}

Kept-later :
    (h h' h'' : Hashes) (key field : Bytes)
    → Kept h' h'' key field
    → (Kept h h' key field ⊎ Written h' key field) ⊎ (find field (h' key) ≡ none)
    → (Kept h h'' key field ⊎ Written h'' key field) ⊎ (find field (h'' key) ≡ none)
Kept-later h h' h'' key field same (inl there) = inl (Kept-after h h' h'' key field same there)
Kept-later h h' h'' key field same (inr gone) = inr (same ∙ gone)

expires_after :
    (h h' h'' : Hashes) → StoresOrExpires h h' → StoresOrExpires h' h'' → StoresOrExpires h h''
expires_after h h' h'' first second key field = elim (second key field) [
  | inl (inl same) ↦ Kept-later h h' h'' key field same (first key field)
  | inl (inr written) ↦ inl (inr written)
  | inr gone ↦ inr gone
]

pub StoresOrExpires-ChangeLaws : ChangeLaws StoresOrExpires
StoresOrExpires-ChangeLaws = record {
  nothing = λ h key field. inl (inl refl);
  after = expires_after;
  stored = λ h h' change key field. inl (change key field);
}

-- Storing a session is such a change.
pub Puts-session :
    (n : ℕ) (h h' : Hashes)
    → Puts (gen_session_key n) ((codes "mbuid", to_string n) ∷ []) h h'
    → OnlyStores h h'
Puts-session n h h' puts key field = elim (puts key field) [
  | inl same ↦ inl same
  | inr (own, written) ↦ inr (n, sym own, written)
]

-- The session of a user is stored.
abbrev pub Stored : ℕ → Hashes → Type 0
Stored n h = find (codes "mbuid") (h (gen_session_key n)) ≡ some (to_string n)

pub one_field :
    (n : ℕ) → find (codes "mbuid") ((codes "mbuid", to_string n) ∷ []) ≡ some (to_string n)
unfolding find
one_field n = refl

pub OnlyStores-Stored : (n : ℕ) (h h' : Hashes) → OnlyStores h h' → Stored n h → Stored n h'
OnlyStores-Stored n h h' change k = elim (change (gen_session_key n) (codes "mbuid")) [
  | inl same ↦ same ∙ k
  | inr (m, own, written) ↦
      written ∙ one_field m ∙ ap (λ i. some (to_string i)) (sym (gen_session_key_injective n m own))
]
