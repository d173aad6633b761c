-- ===== src/Setup/Sockets.antt =====
-- The sockets after the calls of a set-up, by the results of these calls.
use upcalls.Prelude.{
  zero, suc, ◌≡◌, ◌≢◌, ◌∙◌, refl, sym, ap, Bool, true, false, some, ℤ, pos, negsuc, is_neg, arith,
  eq→==, ne→==,
}
use upcalls.Setup.{echo_port, stats_port, error_port, reuse_port, reuse_addr, not_zero}
use upcalls.Setup.Kernel.{
  Kernel, add_await, add_watch, socket_at, is_watched, is_awaited, listener, at_socket, if_done,
  with_option, with_address, to_listen, made,
}
use upcalls.Setup.Endings.{is_zero}

-- `open_listener`, by the results of its calls.
abbrev pub opened_as : (nonblock : Bool) → (z a b c d : ℤ) → Kernel → Kernel
opened_as nonblock z a b c d k = if_done d (at_socket z to_listen) (
    if_done c (at_socket z (with_address echo_port)) (
      if_done b (at_socket z (with_option reuse_addr))
        (if_done a (at_socket z (with_option reuse_port)) (at_socket z (λ _. made nonblock) k))))

abbrev pub Zeros : (a b c d : ℤ) → Type 0
Zeros a b c d =
    (not_zero a ≡ false) × (not_zero b ≡ false) × (not_zero c ≡ false) × (not_zero d ≡ false)

pub opened_lem :
    (nonblock : Bool) (z a b c d : ℤ) (k : Kernel)
    → is_neg z ≡ false
    → Zeros a b c d
    → socket_at z (opened_as nonblock z a b c d k) ≡ some (listener nonblock true echo_port)
opened_lem nonblock (negsuc n) a b c d k h s = ground (arith, h)
opened_lem nonblock (pos fd) a b c d k h (p, q, r, s) =
    rw (is_zero a p, is_zero b q, is_zero c r, is_zero d s, eq→== fd fd refl) refl

-- With a request for connections.
pub awaited_lem :
    (nonblock : Bool) (z a b c d : ℤ) (k : Kernel)
    → is_neg z ≡ false
    → Zeros a b c d
    → (socket_at z (add_await z (opened_as nonblock z a b c d k))
        ≡ some (listener nonblock true echo_port))
      × (is_awaited z (add_await z (opened_as nonblock z a b c d k)) ≡ true)
awaited_lem nonblock (negsuc n) a b c d k h s = ground (arith, h)
awaited_lem nonblock (pos fd) a b c d k h (p, q, r, s) = (
  rw (is_zero a p, is_zero b q, is_zero c r, is_zero d s, eq→== fd fd refl) refl,
  rw (is_zero a p, is_zero b q, is_zero c r, is_zero d s, eq→== fd fd refl) refl,
)

-- With an epoll set, which has `y` too.
pub watched_lem :
    (nonblock : Bool) (z a b c d y e f : ℤ) (k : Kernel)
    → is_neg z ≡ false
    → Zeros a b c d
    → not_zero f ≡ false
    → (socket_at z
          (if_done f (add_watch z) (if_done e (add_watch y) (opened_as nonblock z a b c d k)))
        ≡ some (listener nonblock true echo_port))
      × (is_watched z
            (if_done f (add_watch z) (if_done e (add_watch y) (opened_as nonblock z a b c d k)))
          ≡ true)
watched_lem nonblock (negsuc n) a b c d y e f k h s t = ground (arith, h)
watched_lem nonblock (pos fd) a b c d y e f k h (p, q, r, s) t =
    rw (is_zero f t) (seen e y, rw (eq→== fd fd refl) refl)
  where
    kept : (y : ℤ) (l : Kernel) → socket_at (pos fd) (add_watch y l) ≡ socket_at (pos fd) l
    kept (pos i) l = refl
    kept (negsuc i) l = refl

    seen :
        (e y : ℤ)
        → socket_at
            (pos fd)
            (add_watch (pos fd) (if_done e (add_watch y) (opened_as nonblock (pos fd) a b c d k)))
          ≡ some (listener nonblock true echo_port)
    seen (pos zero) y =
        kept y (opened_as nonblock (pos fd) a b c d k)
        ∙ opened_lem nonblock (pos fd) a b c d k h (p, q, r, s)
    seen (pos (suc n)) y = opened_lem nonblock (pos fd) a b c d k h (p, q, r, s)
    seen (negsuc n) y = opened_lem nonblock (pos fd) a b c d k h (p, q, r, s)

-- The two ports of `main`, by the results of the calls.
abbrev pub ports_opened : (z y a b c d e f : ℤ) → Kernel → Kernel
ports_opened z y a b c d e f k = if_done f (add_watch y) (
    if_done e (add_watch z) (
      if_done d (at_socket y to_listen) (
        if_done c (at_socket z to_listen) (
          if_done b (at_socket y (with_address error_port)) (
            if_done a (at_socket z (with_address stats_port))
              (at_socket y (λ _. made false) (at_socket z (λ _. made false) k)))))))

pub record PortsOpen (z y : ℤ) (k : Kernel) : Type 0 where
  pub stats : socket_at z k ≡ some (listener false false stats_port)
  pub error : socket_at y k ≡ some (listener false false error_port)
  pub stats_watched : is_watched z k ≡ true
  pub error_watched : is_watched y k ≡ true

pub ports_lem :
    (z y a b c d e f : ℤ) (k : Kernel)
    → z ≢ y
    → is_neg z ≡ false
    → is_neg y ≡ false
    → Zeros a b c d
    → not_zero e ≡ false
    → not_zero f ≡ false
    → PortsOpen z y (ports_opened z y a b c d e f k)
ports_lem (negsuc n) y a b c d e f k u h i s t v = ground (arith, h)
ports_lem (pos m) (negsuc n) a b c d e f k u h i s t v = ground (arith, i)
ports_lem (pos m) (pos n) a b c d e f k u h i (p, q, r, s) t v =
    rw (is_zero a p, is_zero b q, is_zero c r, is_zero d s, is_zero e t, is_zero f v)
      (record {
        stats = rw (eq→== m m refl, ne→== n m (λ x. apart (sym x))) refl;
        error = rw (eq→== n n refl, ne→== m n apart) refl;
        stats_watched = rw (eq→== m m refl, ne→== n m (λ x. apart (sym x))) refl;
        error_watched = rw (eq→== n n refl) refl;
      })
  where
    apart : m ≢ n
    apart x = u (ap pos x)
