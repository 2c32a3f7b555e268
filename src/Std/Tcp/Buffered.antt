-- ===== src/Std/Tcp/Buffered.antt =====
-- Reading through a `BufReader` gives what reading the bytes one after the other gives, however the
-- network cuts them.
use tache_rs.Prelude.{
  ℕ, zero, suc, ◌<◌, ◌≡◌, refl, ap, sym, ◌∙◌, List, [], ◌∷◌, ◌++◌, length, drop, min,
  take-append-drop, take-nil, drop-nil, ◌-◌, arith, Bool, true, false, if◌then◌else◌, Option,
  split_at-cases, inl, inr,
}
use tache_rs.Std.Exec.{Exec, Outcome, ok, err, panicked, pure, fail, ◌>>=◌, ensure, panic, continue}
use tache_rs.Std.Io
use tache_rs.Std.Io.{Reader, IoError, stream_end}
use tache_rs.Std.Tcp.{BufReader, next_byte, next_from, pop, arrive, read_buffered}

-- What is to come, without the cut between what is buffered and what is not.
abbrev pub flat : BufReader → Reader
flat b = record { bytes = b.buffer ++ b.inner.input.bytes; fault = b.inner.input.fault }

module _ {A : Type 0} where
  abbrev pub flatten : Outcome IoError A × BufReader → Outcome IoError A × Reader
  flatten (x, b) = (x, flat b)

  -- `m` does with a buffered stream what `m'` does with the bytes, and writes nothing.
  pub record Same (m : Exec BufReader IoError A) (m' : Exec Reader IoError A) : Type 0 where
    pub result : (b : BufReader) → 0 < b.capacity → flatten (m b) ≡ m' (flat b)
    pub room : (b : BufReader) → (m b).1.capacity ≡ b.capacity
    pub output : (b : BufReader) → (m b).1.inner.output ≡ b.inner.output
    -- What has been read ahead in full stays so.
    pub drained : (b : BufReader) → b.inner.input.bytes ≡ [] → (m b).1.inner.input.bytes ≡ []

  pub Same-pure : (a : A) → Same (pure a) (pure a)
  Same-pure a = record {
    result = λ b h. refl;
    room = λ b. refl;
    output = λ b. refl;
    drained = λ b h. h;
  }

  pub Same-fail : (e : IoError) → Same (fail e) (fail e)
  Same-fail e = record {
    result = λ b h. refl;
    room = λ b. refl;
    output = λ b. refl;
    drained = λ b h. h;
  }

  pub Same-panic : Same panic panic
  Same-panic = record {
    result = λ b h. refl;
    room = λ b. refl;
    output = λ b. refl;
    drained = λ b h. h;
  }

  pub Same-if :
      (c : Bool) {m n : Exec BufReader IoError A} {m' n' : Exec Reader IoError A}
      → Same m m'
      → Same n n'
      → Same (λ b. if c then m b else n b) (λ r. if c then m' r else n' r)
  Same-if true s t = s
  Same-if false s t = t

pub Same-ensure : (c : Bool) (e : IoError) → Same (ensure c e) (ensure c e)
Same-ensure true e = Same-pure tt
Same-ensure false e = Same-fail e

module _ {A B : Type 0} {f : A → Exec BufReader IoError B} {f' : A → Exec Reader IoError B}
    (t : (a : A) → Same (f a) (f' a)) where
  flatten-continue :
      (p : Outcome IoError A × BufReader)
      → 0 < p.1.capacity
      → flatten (continue p f) ≡ continue (flatten p) f'
  flatten-continue (ok a, b) h = (t a).result b h
  flatten-continue (err e, b) h = refl
  flatten-continue (panicked, b) h = refl

  room-continue : (p : Outcome IoError A × BufReader) → (continue p f).1.capacity ≡ p.1.capacity
  room-continue (ok a, b) = (t a).room b
  room-continue (err e, b) = refl
  room-continue (panicked, b) = refl

  output-continue :
      (p : Outcome IoError A × BufReader) → (continue p f).1.inner.output ≡ p.1.inner.output
  output-continue (ok a, b) = (t a).output b
  output-continue (err e, b) = refl
  output-continue (panicked, b) = refl

  drained-continue :
      (p : Outcome IoError A × BufReader)
      → p.1.inner.input.bytes ≡ []
      → (continue p f).1.inner.input.bytes ≡ []
  drained-continue (ok a, b) h = (t a).drained b h
  drained-continue (err e, b) h = h
  drained-continue (panicked, b) h = h

  pub Same-bind :
      {m : Exec BufReader IoError A} {m' : Exec Reader IoError A}
      → Same m m'
      → Same (m >>= f) (m' >>= f')
  Same-bind {m} {m'} s = record {
    result = λ b h.
        let kept : 0 < (m b).1.capacity = omega (arith, s.room b) in
        flatten-continue (m b) kept
        ∙ ap (λ (q : Outcome IoError A × Reader). continue q f') (s.result b h);
    room = λ b. room-continue (m b) ∙ s.room b;
    output = λ b. output-continue (m b) ∙ s.output b;
    drained = λ b h. drained-continue (m b) (s.drained b h);
  }

-- One byte of a stream.
abbrev take_first : List ℕ → Exec Reader IoError ℕ
take_first [] r = (err (stream_end r.fault), r)
take_first (x ∷ xs) r = (ok x, record r { bytes = xs })

abbrev uncons : Exec Reader IoError ℕ
uncons r = take_first r.bytes r

module _ (fault : Option IoError) (out : Io.Writer) (burst : ℕ → ℕ) (cap : ℕ) where
  abbrev reader : List ℕ → List ℕ → BufReader
  reader buffer left = record {
    buffer = buffer;
    inner = record { input = record { bytes = left; fault = fault }; output = out; burst = burst };
    capacity = cap;
  }

  next_byte-flat :
      (buffer left : List ℕ)
      → 0 < cap
      → flatten (next_byte (reader buffer left)) ≡ uncons (flat (reader buffer left))
  unfolding next_byte
  next_byte-flat (x ∷ xs) left h = refl
  next_byte-flat [] [] h = rw (take-nil got, drop-nil got) refl
    where
      got : ℕ
      got = min cap (suc (burst 0))
  next_byte-flat [] (y ∷ ys) h =
      let more = burst (suc (length ys)) in
      let e : min cap (suc more) ≡ suc (min (cap - 1) more) = omega arith in
      rw (e, take-append-drop (min (cap - 1) more) ys) refl

pop-room : (xs : List ℕ) (b : BufReader) → (pop xs b).1.capacity ≡ b.capacity
pop-room [] b = refl
pop-room (x ∷ xs) b = refl

pop-output : (xs : List ℕ) (b : BufReader) → (pop xs b).1.inner.output ≡ b.inner.output
pop-output [] b = refl
pop-output (x ∷ xs) b = refl

next_from-room : (xs : List ℕ) (b : BufReader) → (next_from xs b).1.capacity ≡ b.capacity
next_from-room [] b = pop-room (arrive b.capacity b).buffer (arrive b.capacity b)
next_from-room (x ∷ xs) b = refl

next_from-output : (xs : List ℕ) (b : BufReader) → (next_from xs b).1.inner.output ≡ b.inner.output
next_from-output [] b = pop-output (arrive b.capacity b).buffer (arrive b.capacity b)
next_from-output (x ∷ xs) b = refl

pop-bytes : (xs : List ℕ) (b : BufReader) → (pop xs b).1.inner.input.bytes ≡ b.inner.input.bytes
pop-bytes [] b = refl
pop-bytes (x ∷ xs) b = refl

next_from-drained :
    (xs : List ℕ) (b : BufReader)
    → b.inner.input.bytes ≡ []
    → (next_from xs b).1.inner.input.bytes ≡ []
next_from-drained [] b h =
    let got = min b.capacity (suc (b.inner.burst (length b.inner.input.bytes))) in
    pop-bytes (arrive b.capacity b).buffer (arrive b.capacity b)
    ∙ ap (λ (l : List ℕ). drop got l) h
    ∙ drop-nil got
next_from-drained (x ∷ xs) b h = h

next_byte-Same : Same next_byte uncons
unfolding next_byte
next_byte-Same = record {
  result = λ b h.
      next_byte-flat b.inner.input.fault b.inner.output b.inner.burst b.capacity b.buffer
        b.inner.input.bytes h;
  room = λ b. next_from-room b.buffer b;
  output = λ b. next_from-output b.buffer b;
  drained = λ b h. next_from-drained b.buffer b h;
}

-- `read_exact` byte by byte.
read_exact_suc :
    (n : ℕ) (bytes : List ℕ) (fault : Option IoError)
    → Io.read_exact (suc n) (record { bytes = bytes; fault = fault })
      ≡ (uncons >>= λ x. Io.read_exact n >>= λ xs. pure (x ∷ xs))
          (record { bytes = bytes; fault = fault })
read_exact_suc n [] fault = refl
read_exact_suc n (y ∷ ys) fault = elim (split_at-cases n ys) [
  | inl (short, h) ↦ rw short refl
  | inr (enough, h) ↦ rw enough refl
]

-- However few or many bytes each read of the stream returns, `read_exact` of the buffered reader
-- gives the bytes that `read_exact` of the stream itself would give, and leaves the same behind.
pub read_buffered-Same : (n : ℕ) → Same (read_buffered n) (Io.read_exact n)
unfolding read_buffered
read_buffered-Same zero = Same-pure []
read_buffered-Same (suc n) =
    let steps =
      Same-bind (λ x. Same-bind (λ xs. Same-pure (x ∷ xs)) (read_buffered-Same n)) next_byte-Same in
    record {
      result = λ b h.
          steps.result b h
          ∙ sym (read_exact_suc n (b.buffer ++ b.inner.input.bytes) b.inner.input.fault);
      room = steps.room;
      output = steps.output;
      drained = steps.drained;
    }
