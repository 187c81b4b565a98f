-- ===== src/Running.antt =====
-- The kernel behind `kmain`: the interrupts of its devices and the system calls of the user process.
-- It joins the handlers that drivers/keyboard.c and drivers/serial.c register with the dispatch of
-- arch/x86/cpu/isr.c and with kernel/syscall.c. The interrupts that come while SYS_READ waits are
-- those of its polls, whose writes to the ports are not in the log.
pub mod Interrupt
pub mod Sound
pub mod Invariant
mod Examples
use little_os.Base.{ℕ, ◌<◌, ◌≡◌, Option, none, some, List, [], Memory}
use little_os.Keyboard.{Keyboard}
use little_os.Keyboard
use little_os.Serial.{serial_interrupt}
use little_os.Interrupts.{System, Handler, Handlers, Cpu, StackState, interrupt_handler}
use little_os.Syscall.Frame.{IsLow, SameHigh}
use little_os.Syscall.{Registers, Machine, Poll, do_syscall}
use little_os.Kmain.{Driver, keyboard_interrupt_handler, serial_interrupt_handler, Kernel}

-- What the handlers act on: the ring buffer, the byte at the port of the keyboard, and the bytes
-- that wait in the UART.
pub record Devices : Type 0 where
  pub keyboard : Keyboard
  pub scancode : ℕ
  pub received : List ℕ

pub driver_handler : Driver → Handler Devices
driver_handler keyboard_interrupt_handler cpu stack interrupt s = record s {
  devices = record s.devices {
    keyboard = Keyboard.interrupt_handler s.devices.scancode s.devices.keyboard;
  };
}
driver_handler serial_interrupt_handler cpu stack interrupt s = record s {
  devices = record s.devices {
    keyboard = serial_interrupt s.devices.received s.devices.keyboard;
    received = [];
  };
}

pub handlers_of : (ℕ → Option Driver) → Handlers Devices
handlers_of table n = elim (table n) [ none ↦ none | some driver ↦ some (driver_handler driver) ]

-- What an interrupt finds.
pub system : (scancode : ℕ) (received : List ℕ) → Kernel → System Devices
system scancode received k = record {
  screen = k.screen;
  ports = k.ports;
  devices = record { keyboard = k.keyboard; scancode = scancode; received = received };
}

-- `interrupt_handler` in the kernel.
pub interrupt : Cpu → StackState → (vector scancode : ℕ) (received : List ℕ) → Kernel → Kernel
interrupt cpu stack vector scancode received k =
    let s =
      interrupt_handler Devices (handlers_of k.handlers) cpu stack vector
        (system scancode received k) in
    record k { screen = s.screen; ports = s.ports; keyboard = s.devices.keyboard }

-- The kernel, and the memory as a user pointer reaches it: the process's below the kernel's base, and
-- from there on the bytes in which the kernel keeps its tables and its heap.
pub record Running : Type 0 where
  pub kernel : Kernel
  pub memory : Memory

pub machine : Running → Machine
machine r = record {
  keyboard = r.kernel.keyboard;
  screen = r.kernel.screen;
  line = r.kernel.line;
  memory = r.memory;
}

pub after : Machine → Running → Running
after m r = record {
  kernel = record r.kernel { keyboard = m.keyboard; screen = m.screen; line = m.line };
  memory = m.memory;
}

-- An interrupt with a stub, a system call that returns, or a step of the process in its own memory.
-- The buffer of a SYS_READ lies below the kernel's base: the code does not test it, and the state
-- behind a call that stores over the kernel is not modelled.
pub data Step : Running → Running → Type 0 where
  interrupted :
      (cpu : Cpu) (stack : StackState) (vector scancode : ℕ) (received : List ℕ) (r : Running)
      → vector < 48
      → Step r (record r { kernel = interrupt cpu stack vector scancode received r.kernel })
  called :
      (ps : List Poll) (regs regs' : Registers) (m' : Machine) (r : Running)
      → IsLow regs
      → do_syscall ps regs (machine r) ≡ some (regs', m')
      → Step r (after m' r)
  computed :
      (memory : Memory) (r : Running)
      → SameHigh r.memory memory
      → Step r (record r { memory = memory })

pub data Reach (start : Running) : Running → Type 0 where
  here : Reach start start
  step : {r r' : Running} → Reach start r → Step r r' → Reach start r'
