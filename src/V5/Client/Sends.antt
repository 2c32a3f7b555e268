-- ===== src/V5/Client/Sends.antt =====
-- The client only ever adds to what it has sent.
use tache_rs.Prelude.{
  ◌≡◌, refl, sym, ap, ◌∙◌, Bool, true, false, zero, suc, ℕ, List, [], ◌∷◌, ◌++◌, append-nil,
  append_assoc, Option, none, some, if◌then◌else◌, ◌==◌, not, ltb, length, ◌||◌,
}
use tache_rs.Std.Exec.{Exec, Outcome, ok, err, panicked, continue, ◌>>=◌, ◌>>◌, ensure, index}
use tache_rs.Std.Io
use tache_rs.Std.Io.{
  IoError, io_error, invalid_input, invalid_data, permission_denied, Reader, Writer, put_bytes,
}
use tache_rs.Std.Tcp.{TcpStream, on_input, on_output, read_exact, write_all}
use tache_rs.Crates.ByteOrder.{ByteOrder, IsDocumented}
use tache_rs.Utils.{Address}
use tache_rs.V5.Wire.{read_response}
use tache_rs.V5.Response.{response-Reads}
use tache_rs.V5.Client.{
  Authentication, password, no_auth, id, credentials, password_authentication, authenticate,
  request,
}

-- From `t` to `u`, more bytes were sent.
abbrev pub Extends : TcpStream → TcpStream → Type 0
Extends t u = (more : List ℕ) × (u.output.written ≡ t.output.written ++ more)

Extends-same : (t u : TcpStream) → u.output.written ≡ t.output.written → Extends t u
Extends-same t u e = ([], e ∙ sym (append-nil t.output.written))

Extends-trans : (t u v : TcpStream) → Extends t u → Extends u v → Extends t v
Extends-trans t u v (xs, e) (ys, f) =
    (xs ++ ys, f ∙ ap (λ (l : List ℕ). l ++ ys) e ∙ append_assoc t.output.written xs ys)

pub record Sends {A : Type 0} (m : Exec TcpStream IoError A) : Type 0 where
  pub extends : (t : TcpStream) → Extends t (m t).1

module _ {A B : Type 0} where
  continue-Sends :
      (t : TcpStream) (p : Outcome IoError A × TcpStream) (f : A → Exec TcpStream IoError B)
      → Extends t p.1
      → ((a : A) → Sends (f a))
      → Extends t (continue p f).1
  continue-Sends t (ok a, u) f h more = Extends-trans t u (f a u).1 h ((more a).extends u)
  continue-Sends t (err e, u) f h more = h
  continue-Sends t (panicked, u) f h more = h

  pub Sends-bind :
      {m : Exec TcpStream IoError A} {f : A → Exec TcpStream IoError B}
      → Sends m
      → ((a : A) → Sends (f a))
      → Sends (m >>= f)
  Sends-bind {m = m} {f = f} h more = record {
    extends = λ t. continue-Sends t (m t) f (h.extends t) more;
  }

module _ {A : Type 0} where
  Sends-if :
      (b : Bool) (t : TcpStream) (p q : Outcome IoError A × TcpStream)
      → Extends t p.1
      → Extends t q.1
      → Extends t (if b then p else q).1
  Sends-if true t p q h k = h
  Sends-if false t p q h k = k

  Sends-on_input : (t : TcpStream) (p : Outcome IoError A × Reader) → Extends t (on_input t p).1
  Sends-on_input t (x, r) = Extends-same t (record t { input = r }) refl

pub Sends-read_exact : (n : ℕ) → Sends (read_exact n)
Sends-read_exact n = record { extends = λ t. Sends-on_input t (Io.read_exact n t.input) }

put_bytes-Extends :
    (o : Option IoError) (xs : List ℕ) (t : TcpStream)
    → Extends t (on_output t (put_bytes o xs t.output)).1
put_bytes-Extends none xs t = (xs, refl)
put_bytes-Extends (some e) xs t = Extends-same t t refl

pub Sends-write_all : (xs : List ℕ) → Sends (write_all xs)
Sends-write_all xs = record {
  extends = λ t. put_bytes-Extends (t.output.refuses t.output.written) xs t;
}

Sends-ensure : (b : Bool) (e : IoError) → Sends (ensure b e)
Sends-ensure true e = record { extends = λ t. Extends-same t t refl }
Sends-ensure false e = record { extends = λ t. Extends-same t t refl }

Sends-index : (xs : List ℕ) (i : ℕ) → Sends (index xs i)
Sends-index [] i = record { extends = λ t. Extends-same t t refl }
Sends-index (x ∷ xs) zero = record { extends = λ t. Extends-same t t refl }
Sends-index (x ∷ xs) (suc i) = record { extends = λ t. (Sends-index xs i).extends t }

credentials-Sends : (user pass : List ℕ) → Sends (credentials user pass)
unfolding credentials
credentials-Sends user pass = record { extends = λ t. Extends-same t t refl }

password-Sends : (user pass : List ℕ) → Sends (password_authentication user pass)
unfolding password_authentication
password-Sends user pass =
    Sends-bind
      (Sends-ensure (not (ltb (length user) 1 || ltb 255 (length user)))
        (io_error invalid_input "invalid username"))
      (λ _.
        Sends-bind
          (Sends-ensure (not (ltb (length pass) 1 || ltb 255 (length pass)))
            (io_error invalid_input "invalid password"))
          (λ _. Sends-bind (credentials-Sends user pass) (λ packet. packet-Sends packet)))
  where
    packet-Sends :
        (packet : List ℕ)
        → Sends (
            write_all packet
            >> (read_exact 2 >>= λ buf. index buf 0 >>= λ version.
                ensure (version == 1) (io_error invalid_data "invalid response version")
                >> (index buf 1 >>= λ status.
                    ensure
                      (status == 0)
                      (io_error permission_denied "password authentication failed"))))
    packet-Sends packet = Sends-bind (Sends-write_all packet) (λ _.
        Sends-bind (Sends-read_exact 2) (λ buf. Sends-bind (Sends-index buf 0) (λ version.
          Sends-bind
            (Sends-ensure (version == 1) (io_error invalid_data "invalid response version"))
            (λ _. Sends-bind (Sends-index buf 1) (λ status.
              Sends-ensure (status == 0)
                (io_error permission_denied "password authentication failed"))))))

pub authenticate-Sends : (auth : Authentication) (selected : ℕ) → Sends (authenticate auth selected)
unfolding authenticate
authenticate-Sends (password user pass) selected = record {
  extends = λ t.
      Sends-if (selected == id (password user pass)) t (password_authentication user pass t)
        (ok tt, t) ((password-Sends user pass).extends t) (Extends-same t t refl);
}
authenticate-Sends no_auth selected = record { extends = λ t. Extends-same t t refl }

module _ (k : ByteOrder) (documented : IsDocumented k) where
  pub request-Sends : (command : ℕ) (target : Address) → Sends (request k command target)
  unfolding request
  request-Sends command target = record { extends = λ t. Extends-same t t refl }

  pub read_response-Sends : Sends (read_response k)
  read_response-Sends = record {
    extends = λ t.
        Extends-same t (read_response k t).1
          (ap (λ (w : Writer). w.written) (response-Reads k documented t).sent);
  }
