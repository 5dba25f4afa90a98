-- ===== src/Session/Conversation.antt =====
-- engine/session.cpp, Session::generate as it is called: the clearing of a conversation, the prompt's
-- rendering by the model's chat template, and turns that follow one another.
use franken_mo_e_cuda.Prelude.{
  ℕ, ◌+◌, ◌≡◌, ◌≤◌, ◌<◌, refl, sym, ap, ◌∙◌, subst, Bool, true, false, ◌&&◌, not, Option, none,
  some, List, [], ◌∷◌, ◌++◌, length, if◌then◌else◌,
}
use franken_mo_e_cuda.Prelude.Int.{ℤ}
use franken_mo_e_cuda.Config.{is_mtp}
use franken_mo_e_cuda.Session.{Target, Session, Message}
use franken_mo_e_cuda.Session.Round.{Setup}
use franken_mo_e_cuda.Session.Spoken.{Reached, by_cut, Answered}
use franken_mo_e_cuda.Session.Tracked.{Works}
use franken_mo_e_cuda.Session.Turn.{Answer, answered, turn, with_memory}
use franken_mo_e_cuda.Session.Turn.Reused.{IsSynced}
use franken_mo_e_cuda.Session.Turn.Served.{turn-Answers}

pub record Request : Type 0 where
  pub prompt : List ℕ
  pub n_predict : ℕ
  pub clear_kv : Bool
  pub think : Bool

-- The chat template of the model, `none` where its application throws, and the tokenizer. The template
-- reads the messages, whether to think, and whether the reasoning is closed in the prompt.
pub record Texts : Type 0 where
  pub render : List Message → Bool → Bool → Option (List ℕ)
  pub tokenize : List ℕ → List ℤ
  -- Whether the model's ThinkControl is Prefill.
  pub closes_reasoning : Bool

unfoldable pub user_message : List ℕ → Message
user_message p = record { of_user = true; content = p }

-- A new chat drops the memories and the conversation, and resets the sampler.
unfoldable pub clear : Setup → Target → Session → Session
unfolding with_memory
clear cfg t s = record (with_memory [] s) {
  draft_memory = if is_mtp cfg.spec then [] else s.draft_memory;
  chat_history = [];
  kv_tokens = [];
  sampler = if cfg.sampling then t.reset s.sampler else s.sampler;
}

module _ (cfg : Setup) (t : Target) (x : Texts)
    (reply : List Message → Request → List ℤ → Message) where
  -- The template over the whole conversation, or the raw prompt where it throws.
  unfoldable pub with_template : Request → Session → Option (List ℕ) → Answer × Session
  with_template r s (some text) =
      let history = s.chat_history ++ user_message r.prompt ∷ [] in
      turn cfg t (reply history r) (x.tokenize text) r.n_predict true
        (record s { chat_history = history })
  with_template r s none =
      turn (record cfg { chat_on = false }) t (reply s.chat_history r) (x.tokenize r.prompt)
        r.n_predict false s

  unfoldable pub text_of : List Message → Request → Option (List ℕ)
  text_of history r = x.render history r.think (not r.think && x.closes_reasoning)

  unfoldable pub generate : Request → Session → Answer × Session
  unfolding text_of
  generate r s0 =
      let s = if r.clear_kv then clear cfg t s0 else s0 in
      if cfg.chat_on
      then with_template r s (text_of (s.chat_history ++ user_message r.prompt ∷ []) r)
      else turn cfg t (reply s.chat_history r) (x.tokenize r.prompt) r.n_predict false s

  -- One request after the other.
  unfoldable pub converse : List Request → Session → List Answer
  converse [] s = []
  converse (r ∷ rs) s = let a = generate r s in a.0 ∷ converse rs a.1

  -- The conversation that a request continues, with its own message.
  abbrev pub asked : List Message → Request → List Message
  asked history r = (if r.clear_kv then [] else history) ++ user_message r.prompt ∷ []

  -- An answer that the target says to the rendered prompt, in at most the tokens asked for.
  abbrev pub AnswersTo : List ℕ → Request → List ℤ → Type 0
  AnswersTo text r said = Answered t (x.tokenize text) r.n_predict said

  -- A conversation as it is meant: each request is rendered with all that went before, and answered by
  -- what the target says to that rendering.
  pub data Dialogue : List Message → List Request → List Answer → Type 0 where
    over : (history : List Message) → Dialogue history [] []
    reply_to :
        {history : List Message} {r : Request} {rs : List Request} {answers : List Answer}
        (text : List ℕ) (said : List ℤ)
        → text_of (asked history r) r ≡ some text
        → AnswersTo text r said
        → Dialogue (asked history r ++ reply (asked history r) r said ∷ []) rs answers
        → Dialogue history (r ∷ rs) (answered said ∷ answers)

  -- Every request of the conversation is rendered, to at least one token, and has room in n_ctx,
  -- whatever the target said before.
  abbrev pub Admits : List Message → List Request → Type 0
  Admits history [] = Unit
  Admits history (r ∷ rs) =
      (text : List ℕ) × (text_of (asked history r) r ≡ some text)
      × (0 < length (x.tokenize text))
      × (length (x.tokenize text) + r.n_predict + 8 ≤ cfg.n_ctx)
      × ((said : List ℤ)
          → AnswersTo text r said
          → Admits (asked history r ++ reply (asked history r) r said ∷ []) rs)

  clear-IsSynced : (s : Session) → IsSynced cfg (clear cfg t s)
  unfolding clear with_memory
  clear-IsSynced s = record {
    memory = nothing cfg.chat_on;
    draft = λ head. rw head (nothing cfg.chat_on);
  }
    where
      nothing : (b : Bool) → ◌≡◌ {A = List ℤ} [] (if b then [] else [])
      nothing true = refl
      nothing false = refl

  -- The session that a request's turn starts from.
  started_IsSynced :
      (b : Bool) (s : Session)
      → IsSynced cfg s
      → IsSynced cfg (if b then clear cfg t s else s)
        × ((if b then clear cfg t s else s).chat_history ≡ (if b then [] else s.chat_history))
  unfolding clear with_memory
  started_IsSynced true s y = (clear-IsSynced s, refl)
  started_IsSynced false s y = (y, refl)

  started_Reached :
      (b : Bool) (s : Session)
      → Reached t s.context
      → Reached t (if b then clear cfg t s else s).context
  unfolding clear with_memory
  started_Reached true s r = by_cut s.context 0 r
  started_Reached false s r = r

  module _ (w : Works t) (chat : cfg.chat_on ≡ true) (width : 0 < cfg.n_batch)
      (plain : cfg.sampling ≡ false) where
    -- One request of a conversation.
    record Turns (r : Request) (s : Session) (text : List ℕ) (a : Answer × Session) : Type 0 where
      said : List ℤ
      reached : Reached t a.1.context
      answer : a.0 ≡ answered said
      greedily : AnswersTo text r said
      synced : IsSynced cfg a.1
      chat_history :
          a.1.chat_history ≡ asked s.chat_history r ++ reply (asked s.chat_history r) r said ∷ []

    turn-Turns :
        (r : Request) (s s1 : Session) (text : List ℕ)
        → IsSynced cfg s1
        → Reached t s1.context
        → s1.chat_history ≡ asked s.chat_history r
        → 0 < length (x.tokenize text)
        → length (x.tokenize text) + r.n_predict + 8 ≤ cfg.n_ctx
        → Turns r s text
            (turn cfg t (reply s1.chat_history r) (x.tokenize text) r.n_predict true s1)
    turn-Turns r s s1 text y alive h some_tokens room =
        let a =
          turn-Answers cfg t (reply s1.chat_history r) (x.tokenize text) r.n_predict true s1 w y
            alive width some_tokens room in
        let held = a.kv chat in
        let after =
          (turn cfg t (reply s1.chat_history r) (x.tokenize text) r.n_predict true s1).1 in
        let kept : after.kv_tokens ≡ (if cfg.chat_on then after.kv_tokens else []) = rw chat refl in
        record {
          said = a.emitted;
          reached = a.reached;
          answer = a.answer;
          greedily = a.greedily plain;
          synced = record {
            memory = a.memory ∙ sym held ∙ kept;
            draft = λ head. a.draft head ∙ sym held ∙ kept;
          };
          chat_history = a.chat_history ∙ rw chat (ap (λ l. l ++ reply l r a.emitted ∷ []) h);
        }

    generate-Turns :
        (r : Request) (s : Session) (text : List ℕ)
        → IsSynced cfg s
        → Reached t s.context
        → text_of (asked s.chat_history r) r ≡ some text
        → 0 < length (x.tokenize text)
        → length (x.tokenize text) + r.n_predict + 8 ≤ cfg.n_ctx
        → Turns r s text (generate r s)
    unfolding generate with_template
    generate-Turns r s text y alive e some_tokens room =
        let (z, h) = started_IsSynced r.clear_kv s y in
        let s0 = if r.clear_kv then clear cfg t s else s in
        let s1 = record s0 { chat_history = s0.chat_history ++ user_message r.prompt ∷ [] } in
        let rendered : text_of (s0.chat_history ++ user_message r.prompt ∷ []) r ≡ some text =
          ap (λ l. text_of (l ++ user_message r.prompt ∷ []) r) h ∙ e in
        simp (chat, rendered, generate, with_template)
          (turn-Turns r s s1 text (record { memory = z.memory; draft = z.draft })
            (started_Reached r.clear_kv s alive) (ap (λ l. l ++ user_message r.prompt ∷ []) h)
            some_tokens room)

    answers_of :
        (r : Request) (rs : List Request) (s : Session) (text : List ℕ) (a : Answer × Session)
        → text_of (asked s.chat_history r) r ≡ some text
        → Turns r s text a
        → Dialogue a.1.chat_history rs (converse rs a.1)
        → Dialogue s.chat_history (r ∷ rs) (a.0 ∷ converse rs a.1)
    answers_of r rs s text a e k d =
        subst (λ b. Dialogue s.chat_history (r ∷ rs) (b ∷ converse rs a.1)) (sym k.answer)
          (reply_to text k.said e k.greedily
            (subst (λ h. Dialogue h rs (converse rs a.1)) k.chat_history d))

    converse_on :
        (rs : List Request) (s : Session)
        → IsSynced cfg s
        → Reached t s.context
        → Admits s.chat_history rs
        → Dialogue s.chat_history rs (converse rs s)
    unfolding converse
    converse_on [] s y alive a = over s.chat_history
    converse_on (r ∷ rs) s y alive a =
        let k = generate-Turns r s a.0 y alive a.1 a.2 a.3 in
        answers_of r rs s a.0 (generate r s) a.1 k (
          converse_on rs (generate r s).1 k.synced k.reached
            (subst (λ h. Admits h rs) (sym k.chat_history) (a.4 k.said k.greedily)))

-- In a chat without sampling whose prompts are decoded in chunks of at least one token, from a session
-- whose memories are those of kv_tokens and whose context is one that it can come to, and where llama.cpp's calls succeed and every request is
-- rendered to a prompt of at least one token with room in n_ctx, whatever was answered before: the
-- requests are answered one after the other as a dialogue. Each is rendered after all messages since
-- the last new chat, with the answers given. Each token of an answer is the most likely one of a row of
-- logits that a decode in such a context was asked for and returned behind just that rendering and the tokens before it,
-- whatever was reused of the memories and drafted, and an answer ends at the tokens asked for or where
-- such a row ends the generation.
pub converse-Dialogue :
    (cfg : Setup) (t : Target) (x : Texts) (reply : List Message → Request → List ℤ → Message)
    (rs : List Request) (s : Session)
    → Works t
    → cfg.chat_on ≡ true
    → 0 < cfg.n_batch
    → cfg.sampling ≡ false
    → IsSynced cfg s
    → Reached t s.context
    → Admits cfg t x reply s.chat_history rs
    → Dialogue cfg t x reply s.chat_history rs (converse cfg t x reply rs s)
converse-Dialogue cfg t x reply rs s w chat width plain y alive a =
    converse_on cfg t x reply w chat width plain rs s y alive a
