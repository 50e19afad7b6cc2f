-- ===== src/Host/Connection/Format.antt =====
-- tuya_daemon/connection.c: who owns the format of the time, while the cloud sets it.
use tuya_daemon.Base.{
  ℕ, ◌≡◌, refl, Bool-cases, inl, inr, Bool, true, false, Option, none, some, List, ◌∷◌, String,
  ◌==◌, ==_iff, ==_refl, arith, ap, ◌∙◌, member, remove, if◌then◌else◌,
}
use tuya_daemon.World.{CharPtr, null, literal, block, Sys, Json, Env, free, free_block, skip}
use tuya_daemon.World.Logic
use tuya_daemon.World.Logic.{
  Returns, ends, View, with_blocks, At, Keeps, At-note, tell-Keeps, malloc-Keeps, free_block-Keeps,
  free_second-Keeps,
}
use tuya_daemon.Host.Connection.{set_date_time_format, cjson_delete}

-- The flag, the format, and the live blocks, where `bs` are the blocks that others own.
pub data OwnedFormat (bs : List ℕ) : Bool → CharPtr → List ℕ → Type 0 where
  static : (text : String) → OwnedFormat bs false (literal text) bs
  dynamic : (a : ℕ) (text : String) → OwnedFormat bs true (block a text) (a ∷ bs)

-- The two globals and the live blocks of a state or a view.
abbrev pub Owns : List ℕ → View → Type 0
Owns bs v = OwnedFormat bs v.date_time_format_should_free v.date_time_format v.blocks

-- What the code relies on: the library has validated the JSON text, and members have names.
pub record ValidJson (env : Env) : Type 0 where
  pub parses : (text : String) → (j : Json) × (env.cjson_parse text ≡ some j)
  pub named : (j : Json) → (name : String) × (env.json_name j ≡ some name)

-- `f` can be freed, and what is left then is `a` and the blocks of the others.
pub record Leaves (f a : ℕ) (bs now : List ℕ) : Type 0 where
  pub live : member f now ≡ true
  pub left : remove f now ≡ a ∷ bs

second_out : (f a : ℕ) (bs : List ℕ) → Leaves f a bs (a ∷ f ∷ bs)
second_out f a bs = elim (Bool-cases (f == a)) [
  | inl same ↦ record {
    live = rw same refl;
    left = rw same (ap (λ (x : ℕ). x ∷ bs) ((==_iff f a).0 same));
  }
  | inr other ↦ record { live = rw (other, ==_refl f) refl; left = rw (other, ==_refl f) refl }
]

first_out : (f a : ℕ) (bs : List ℕ) → Leaves f a bs (f ∷ a ∷ bs)
first_out f a bs = record { live = rw (==_refl f) refl; left = rw (==_refl f) refl }

third_out : (b f a : ℕ) (bs : List ℕ) → Leaves f a bs (remove b (a ∷ f ∷ b ∷ bs))
third_out b f a bs = elim (Bool-cases (b == a)) [
  | inl same ↦ rw (same, (==_iff b a).0 same) (first_out f a bs)
  | inr other ↦ rw other (elim (Bool-cases (b == f)) [
    | inl same ↦ rw (same, (==_iff b f).0 same) (second_out f a bs)
    | inr new ↦ rw (new, ==_refl b) (second_out f a bs)
  ])
]

-- The blocks of a view, under another name.
pub At-with :
    (v : View) {now : List ℕ} {u : Sys} → At v u → v.blocks ≡ now → At (with_blocks now v) u
At-with v at e = record {
  blocks = at.blocks ∙ e;
  context = at.context;
  date_time_format = at.date_time_format;
  date_time_format_should_free = at.date_time_format_should_free;
  handlers = at.handlers;
  trace = at.trace;
}

module _ (env : Env) {v : View} {t : Sys} (at : At v t) where
  pub remove-Keeps :
      (a : ℕ)
      → member a v.blocks ≡ true
      → Returns (Keeps (with_blocks (remove a v.blocks) v)) (free_block env a t)
  unfolding free_block
  remove-Keeps a h =
      let l : member a t.blocks ≡ true = rw at.blocks h in
      rw l (ends (At-note env _ refl (ground arith)))

  -- The old format is freed if it is a heap block.
  release-Leaves :
      (flag : Bool) (old : CharPtr) {owned bs : List ℕ} (f a : ℕ)
      → OwnedFormat bs flag old owned
      → v.blocks ≡ a ∷ f ∷ owned
      → Returns
          (λ _ u. (now : List ℕ) × Leaves f a bs now × At (with_blocks now v) u)
          ((if flag then free env old else skip) t)
  unfolding free
  release-Leaves flag old f a (static text) e = ends (_, second_out f a _, At-with v at e)
  release-Leaves flag old f a (dynamic b text) e =
      Logic.mono (remove-Keeps b (rw (e, ==_refl b) (ground arith)))
        λ _ u k. (_, third_out b f a _, At-with _ k (ap (remove b) e))

  pub delete-Keeps :
      (f : ℕ) (bs : List ℕ)
      → v.blocks ≡ f ∷ bs
      → Returns (Keeps (with_blocks bs v)) (cjson_delete env f null t)
  unfolding cjson_delete free
  delete-Keeps f bs e = Logic.bind (free_block-Keeps env at f bs e) λ _ u k. tell-Keeps env k _ refl

  pub delete_text-Keeps :
      (f a : ℕ) (text : String) (bs : List ℕ)
      → v.blocks ≡ a ∷ f ∷ bs
      → Returns (Keeps (with_blocks bs v)) (cjson_delete env f (block a text) t)
  unfolding cjson_delete free
  delete_text-Keeps f a text bs e =
      Logic.bind (free_block-Keeps env at a (f ∷ bs) e)
        λ _ u k. Logic.bind (free_block-Keeps env k f bs refl) λ _ u1 k1. tell-Keeps env k1 _ refl

-- The view after the globals have been written.
abbrev pub with_format : Bool → CharPtr → List ℕ → View → View
with_format flag format now v = record v {
  blocks = now;
  date_time_format = format;
  date_time_format_should_free = flag;
}

-- The flag and the format after a message: as before, or set to the text that is wanted.
pub data Follows (v : View) : Option String → Bool → CharPtr → Type 0 where
  kept : Follows v none v.date_time_format_should_free v.date_time_format
  renewed : (a : ℕ) (text : String) → Follows v (some text) true (block a text)

-- The format is the one that is wanted and is owned again, by whatever the globals now say, and
-- nothing else has changed.
pub record Settled (bs : List ℕ) (v : View) (wanted : Option String) (u : Sys) : Type 0 where
  pub flag : Bool
  pub format : CharPtr
  pub now : List ℕ
  pub owned : OwnedFormat bs flag format now
  pub follows : Follows v wanted flag format
  pub at : At (with_format flag format now v) u

pub settled : {bs : List ℕ} {v : View} {u : Sys} → Owns bs v → At v u → Settled bs v none u
settled {v = v} own at = record {
  flag = v.date_time_format_should_free;
  format = v.date_time_format;
  now = v.blocks;
  owned = own;
  follows = kept;
  at = at;
}

module _ (env : Env) {v : View} {t : Sys} (at : At v t) where
  pub set_date_time_format-Leaves :
      {owned bs : List ℕ} (f a : ℕ) (text : String)
      → OwnedFormat bs v.date_time_format_should_free v.date_time_format owned
      → v.blocks ≡ a ∷ f ∷ owned
      → Returns
          (λ _ u. (now : List ℕ) × Leaves f a bs now × At (with_format true (block a text) now v) u)
          (set_date_time_format env (block a text) t)
  unfolding set_date_time_format
  set_date_time_format-Leaves f a text own e =
      Logic.bind
        (release-Leaves env at t.date_time_format_should_free t.date_time_format f a
          (rw (at.date_time_format_should_free, at.date_time_format) own) e)
        λ _ u (now, l, k). ends (
          now,
          l,
          record {
            blocks = k.blocks;
            context = k.context;
            date_time_format = refl;
            date_time_format_should_free = refl;
            handlers = k.handlers;
            trace = k.trace;
          },
        )
