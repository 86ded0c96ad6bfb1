-- ===== src/Casefile/Commands/Refinement.antt =====
-- The seven commands on a casefile as one machine, related to the transitions of Commands/Phases
-- (src/server/casefile/commands.ts).
use superscriber.Prelude.{
  Text, ℕ, List, [], ◌∷◌, ◌++◌, ◌≡◌, ◌⊎◌, inl, inr, refl, ap, ◌∙◌, sym, arith, subst,
}
use superscriber.Domain.Models.{Principal}
use superscriber.Domain.Errors.{Failure, Result, ok, err}
use superscriber.Casefile.Store.{Db, World}
use superscriber.Casefile.Store.Exec.{
  Exec, ◌>>=◌, lift, run_governed_transaction, checked_transaction_err,
}
use superscriber.Casefile.Commands.Phases.{
  Phase, drafting, awaiting, closed, HasPhase, Step, save, submit, reject, approve, reopen,
  phase_of_approved,
}
use superscriber.Casefile.Commands.Drafts.{
  SaveDraftInput, SubmitInput, RenameSpeakerInput, save_draft_command, submit_revision_command,
  rename_speaker_command, save_draft_body, submit_revision_body, rename_speaker_body,
}
use superscriber.Casefile.Commands.Drafts.Save.{save_draft_command-HasPhase}
use superscriber.Casefile.Commands.Drafts.Rename.{rename_speaker_command-HasPhase}
use superscriber.Casefile.Commands.Drafts.Submit.{submit_revision_command-HasPhase}
use superscriber.Casefile.Commands.Decisions.{
  DecisionInput, withdraw_revision_command, request_changes_command, approve_revision_command,
  reopen_revision_command, withdraw_revision_body, request_changes_body, approve_revision_body,
  reopen_revision_body,
}
use superscriber.Casefile.Commands.Decisions.Withdraw.{withdraw_revision_command-HasPhase}
use superscriber.Casefile.Commands.Decisions.RequestChanges.{request_changes_command-HasPhase}
use superscriber.Casefile.Commands.Decisions.Approve.{approve_revision_command-HasPhase}
use superscriber.Casefile.Commands.Decisions.Reopen.{reopen_revision_command-HasPhase}

-- A request, with its input.
pub data Command : Type 0 where
  saving : SaveDraftInput → Command
  submitting : SubmitInput → Command
  renaming : RenameSpeakerInput → Command
  withdrawing requesting_changes approving reopening : DecisionInput → Command

abbrev pub subject : Command → Text
subject (saving i) = i.recording_id
subject (submitting i) = i.recording_id
subject (renaming i) = i.recording_id
subject (withdrawing i) = i.recording_id
subject (requesting_changes i) = i.recording_id
subject (approving i) = i.recording_id
subject (reopening i) = i.recording_id

module _ {A : Type 0} where
  abbrev forget : Result A × World → Result (Unit {0}) × World
  forget (ok a, w) = (ok tt, w)
  forget (err e, w) = (err e, w)

unfoldable pub perform : Command → Principal → ℕ → Exec (Unit {0})
unfolding save_draft_command submit_revision_command rename_speaker_command
    withdraw_revision_command request_changes_command approve_revision_command
    reopen_revision_command
perform (saving i) p now w = forget (save_draft_command p i now w)
perform (submitting i) p now w = forget (submit_revision_command p i now w)
perform (renaming i) p now w = forget (rename_speaker_command p i now w)
perform (withdrawing i) p now w = forget (withdraw_revision_command p i now w)
perform (requesting_changes i) p now w = forget (request_changes_command p i now w)
perform (approving i) p now w = forget (approve_revision_command p i now w)
perform (reopening i) p now w = forget (reopen_revision_command p i now w)

module _ {A : Type 0} where
  forget_ok :
      (r : Result A × World) (w' : World) → forget r ≡ (ok tt, w') → (a : A) × (r ≡ (ok a, w'))
  forget_ok (ok a, v) w' h = (a, ground arith)
  forget_ok (err e, v) w' h = absurd (cc)

  forget_err :
      (r : Result A × World) (w' : World) (e : Failure) → forget r ≡ (err e, w') → r ≡ (err e, w')
  forget_err (ok a, v) w' e h = absurd (cc)
  forget_err (err d, v) w' e h = ground arith

  refused_keeps :
      (check : Result (Unit {0})) (body : ℕ → Exec A) (now : ℕ) (w w' : World) (e : Failure)
      → forget ((lift check >>= λ _. run_governed_transaction body now) w) ≡ (err e, w')
      → w'.db ≡ w.db
  refused_keeps check body now w w' e h =
      checked_transaction_err check body now w w' e (forget_err _ w' e h)

-- A command that fails leaves the database as it was.
pub perform_err :
    (c : Command) (p : Principal) (now : ℕ) (w w' : World) (e : Failure)
    → perform c p now w ≡ (err e, w')
    → w'.db ≡ w.db
unfolding perform
perform_err (saving i) p now w w' e h = refused_keeps _ (save_draft_body p i) now w w' e h
perform_err (submitting i) p now w w' e h = refused_keeps _ (submit_revision_body p i) now w w' e h
perform_err (renaming i) p now w w' e h = refused_keeps _ (rename_speaker_body p i) now w w' e h
perform_err (withdrawing i) p now w w' e h =
    refused_keeps _ (withdraw_revision_body p i) now w w' e h
perform_err (requesting_changes i) p now w w' e h =
    refused_keeps _ (request_changes_body p i) now w w' e h
perform_err (approving i) p now w w' e h = refused_keeps _ (approve_revision_body p i) now w w' e h
perform_err (reopening i) p now w w' e h = refused_keeps _ (reopen_revision_body p i) now w w' e h

-- The transition of a request that succeeds: it starts at the revision that the request names.
data Takes : Command → Phase → Phase → Type 0 where
  saves :
      (i : SaveDraftInput) (a b : Text)
      → a ≡ i.expected_current_revision_id
      → Takes (saving i) (drafting a) (drafting b)
  renames :
      (i : RenameSpeakerInput) (a b : Text)
      → a ≡ i.expected_current_revision_id
      → Takes (renaming i) (drafting a) (drafting b)
  submits :
      (i : SubmitInput) (a b : Text)
      → a ≡ i.expected_current_revision_id
      → Takes (submitting i) (drafting a) (awaiting b)
  withdraws :
      (i : DecisionInput) (a b : Text)
      → a ≡ i.expected_revision_id
      → Takes (withdrawing i) (awaiting a) (drafting b)
  sends_back :
      (i : DecisionInput) (a b : Text)
      → a ≡ i.expected_revision_id
      → Takes (requesting_changes i) (awaiting a) (drafting b)
  approves :
      (i : DecisionInput) (a : Text)
      → a ≡ i.expected_revision_id
      → Takes (approving i) (awaiting a) (closed a)
  reopens :
      (i : DecisionInput) (a b : Text)
      → a ≡ i.expected_revision_id
      → Takes (reopening i) (closed a) (drafting b)

record Taken (c : Command) (db : Db) (id : Text) (ph : Phase) : Type 0 where
  next : Phase
  takes : Takes c ph next
  has : HasPhase db id next

taken :
    (c : Command) (db : Db) (id : Text) (from ph next : Phase)
    → Takes c from next
    → (ph ≡ from) × HasPhase db id next
    → Taken c db id ph
taken c db id from ph next t (e, has) = record {
  next = next;
  takes = subst (λ q. Takes c q next) (sym e) t;
  has = has;
}

-- A command that succeeds makes the transition of its kind.
perform-Takes :
    (c : Command) (p : Principal) (now : ℕ) (w w' : World) (ph : Phase)
    → perform c p now w ≡ (ok tt, w')
    → HasPhase w.db (subject c) ph
    → Taken c w'.db (subject c) ph
unfolding perform
perform-Takes (saving i) p now w w' ph h has =
    let (d, ran) = forget_ok (save_draft_command p i now w) w' h in
    taken _ _ _ _ ph _ (saves i _ d.id refl) (save_draft_command-HasPhase p i now w w' d ph ran has)
perform-Takes (submitting i) p now w w' ph h has =
    let (v, ran) = forget_ok (submit_revision_command p i now w) w' h in
    taken _ _ _ _ ph _ (submits i _ v.id refl)
      (submit_revision_command-HasPhase p i now w w' v ran ph has)
perform-Takes (renaming i) p now w w' ph h has =
    let (r, ran) = forget_ok (rename_speaker_command p i now w) w' h in
    taken _ _ _ _ ph _ (renames i _ r.0.id refl)
      (rename_speaker_command-HasPhase p i now w w' r.0 r.1 ran ph has)
perform-Takes (withdrawing i) p now w w' ph h has =
    let (d, ran) = forget_ok (withdraw_revision_command p i now w) w' h in
    taken _ _ _ _ ph _ (withdraws i _ d.id refl)
      (withdraw_revision_command-HasPhase p i now w w' d ph ran has)
perform-Takes (requesting_changes i) p now w w' ph h has =
    let (d, ran) = forget_ok (request_changes_command p i now w) w' h in
    taken _ _ _ _ ph _ (sends_back i _ d.id refl)
      (request_changes_command-HasPhase p i now w w' d ph ran has)
perform-Takes (approving i) p now w w' ph h has =
    let (r, ran) = forget_ok (approve_revision_command p i now w) w' h in
    taken _ _ _ _ ph _ (approves i _ refl)
      (approve_revision_command-HasPhase p i now w w' r.0 r.1 ran ph has)
perform-Takes (reopening i) p now w w' ph h has =
    let (d, ran) = forget_ok (reopen_revision_command p i now w) w' h in
    taken _ _ _ _ ph _ (reopens i _ d.id refl)
      (reopen_revision_command-HasPhase p i now w w' d ph ran has)

Takes-Step : {c : Command} {a b : Phase} → Takes c a b → Step a b
Takes-Step (saves i a b e) = save a b
Takes-Step (renames i a b e) = save a b
Takes-Step (submits i a b e) = submit a b
Takes-Step (withdraws i a b e) = reject a b
Takes-Step (sends_back i a b e) = reject a b
Takes-Step (approves i a e) = approve a
Takes-Step (reopens i a b e) = reopen a b

-- A transition of the casefile `id` from a phase.
pub record Moves (db : Db) (id : Text) (ph : Phase) : Type 0 where
  pub next : Phase
  pub step : Step ph next
  pub has : HasPhase db id next

-- A command that succeeds makes one of the permitted transitions of its casefile.
pub perform_ok :
    (c : Command) (p : Principal) (now : ℕ) (w w' : World) (ph : Phase)
    → perform c p now w ≡ (ok tt, w')
    → HasPhase w.db (subject c) ph
    → Moves w'.db (subject c) ph
perform_ok c p now w w' ph h has =
    let t = perform-Takes c p now w w' ph h has in
    record { next = t.next; step = Takes-Step t.takes; has = t.has }

-- Requests on one casefile, by any accounts at any times, with those that succeed in their order.
pub data Requests (id : Text) : List Command → World → World → Type 0 where
  stop : (w : World) → Requests id [] w w
  refused :
      (cs : List Command) (c : Command) (p : Principal) (now : ℕ) (w v w' : World) (e : Failure)
      → subject c ≡ id
      → perform c p now w ≡ (err e, v)
      → Requests id cs v w'
      → Requests id cs w w'
  accepted :
      (cs : List Command) (c : Command) (p : Principal) (now : ℕ) (w v w' : World)
      → subject c ≡ id
      → perform c p now w ≡ (ok tt, v)
      → Requests id cs v w'
      → Requests id (c ∷ cs) w w'

-- The transitions of requests, one after the other.
data Trace : List Command → Phase → Phase → Type 0 where
  done : (ph : Phase) → Trace [] ph ph
  step :
      (c : Command) (cs : List Command) (a b d : Phase)
      → Takes c a b
      → Trace cs b d
      → Trace (c ∷ cs) a d

record Reaches (db : Db) (id : Text) (cs : List Command) (ph : Phase) : Type 0 where
  last : Phase
  trace : Trace cs ph last
  has : HasPhase db id last

-- After any requests on a casefile it is in a phase to which those that succeeded lead, when each makes,
-- in order, the transition of its kind from the revision that it names. A refused request makes none.
perform-Reaches :
    (id : Text) (cs : List Command) (w w' : World) (ph : Phase)
    → HasPhase w.db id ph
    → Requests id cs w w'
    → Reaches w'.db id cs ph
perform-Reaches id _ _ _ ph has (stop w) = record { last = ph; trace = done ph; has = has }
perform-Reaches id _ _ _ ph has (refused cs c p now w v w' e same ran rest) =
    perform-Reaches id cs v w' ph
      (subst (λ d. HasPhase d id ph) (sym (perform_err c p now w v e ran)) has) rest
perform-Reaches id _ _ _ ph has (accepted cs c p now w v w' same ran rest) =
    let t = perform-Takes c p now w v ph ran (subst (λ i. HasPhase w.db i ph) (sym same) has) in
    let r =
      perform-Reaches id cs v w' t.next (subst (λ i. HasPhase v.db i t.next) same t.has) rest in
    record { last = r.last; trace = step c cs ph t.next r.last t.takes r.trace; has = r.has }

-- The last two requests are a submission and the approval of a revision.
pub record EndsInApproval (cs : List Command) (revision_id : Text) : Type 0 where
  pub before : List Command
  pub submission : SubmitInput
  pub approval : DecisionInput
  pub requests : cs ≡ before ++ submitting submission ∷ approving approval ∷ []
  pub revision : approval.expected_revision_id ≡ revision_id

after_request :
    (c : Command) (cs : List Command) (r : Text) → EndsInApproval cs r → EndsInApproval (c ∷ cs) r
after_request c cs r e = record {
  before = c ∷ e.before;
  submission = e.submission;
  approval = e.approval;
  requests = ap (◌∷◌ c) e.requests;
  revision = e.revision;
}

-- How requests lead from a phase to an approved revision.
abbrev Closes : List Command → Phase → Text → Type 0
Closes cs (drafting a) r = EndsInApproval cs r
Closes cs (awaiting a) r =
    EndsInApproval cs r
    ⊎ ((d : DecisionInput) × (cs ≡ approving d ∷ []) × (d.expected_revision_id ≡ r))
Closes cs (closed a) r = EndsInApproval cs r ⊎ ((cs ≡ []) × (a ≡ r))

Takes-Closes :
    {c : Command} {a b : Phase} (cs : List Command) (r : Text)
    → Takes c a b
    → Closes cs b r
    → Closes (c ∷ cs) a r
Takes-Closes cs r (saves i a b e) k = after_request _ cs r k
Takes-Closes cs r (renames i a b e) k = after_request _ cs r k
Takes-Closes cs r (submits i a b e) (inl k) = after_request _ cs r k
Takes-Closes cs r (submits i a b e) (inr (d, only, same)) = record {
  before = [];
  submission = i;
  approval = d;
  requests = ap (◌∷◌ (submitting i)) only;
  revision = same;
}
Takes-Closes cs r (withdraws i a b e) k = inl (after_request _ cs r k)
Takes-Closes cs r (sends_back i a b e) k = inl (after_request _ cs r k)
Takes-Closes cs r (approves i a e) (inl k) = inl (after_request _ cs r k)
Takes-Closes cs r (approves i a e) (inr (only, same)) =
    inr (i, ap (◌∷◌ (approving i)) only, sym e ∙ same)
Takes-Closes cs r (reopens i a b e) k = inl (after_request _ cs r k)

Trace-Closes :
    (cs : List Command) (a last : Phase) (r : Text)
    → Trace cs a last
    → last ≡ closed r
    → Closes cs a r
Trace-Closes _ _ _ r (done ph) e = subst (λ q. Closes [] q r) (sym e) (inr (refl, refl))
Trace-Closes _ _ last r (step c cs a b _ t trace) e =
    Takes-Closes cs r t (Trace-Closes cs b last r trace e)

-- If a casefile was being drafted and is approved after any requests, each refused or not, then the last two that succeeded
-- are a submission and the approval of the very revision that it is approved with.
pub perform-EndsInApproval :
    (id : Text) (cs : List Command) (w w' : World) (a r : Text)
    → HasPhase w.db id (drafting a)
    → Requests id cs w w'
    → HasPhase w'.db id (closed r)
    → EndsInApproval cs r
perform-EndsInApproval id cs w w' a r has requests closes =
    let m = perform-Reaches id cs w w' (drafting a) has requests in
    Trace-Closes cs (drafting a) m.last r m.trace
      (phase_of_approved w'.db id r closes.recording closes.stored m.last closes.approved m.has)
