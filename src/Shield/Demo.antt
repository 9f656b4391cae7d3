-- ===== src/Shield/Demo.antt =====
-- A concrete platform and board for the tests.
use rpi_rt_ether_cat_slave_i.Common.{ℕ, ◌+◌, ◌*◌, ◌^◌, true}
use rpi_rt_ether_cat_slave_i.Common.Int.{pos, neg}
use rpi_rt_ether_cat_slave_i.Stat.{StatBuffer}
use rpi_rt_ether_cat_slave_i.Shield.{Platform, Board}
use rpi_rt_ether_cat_slave_i.Demo.{Chip, chip_bus, machine}

abbrev pub platform : Platform Chip ℕ
platform = record {
  bus = chip_bus;
  bcm2835_init = λ c. (true, c);
  bcm2835_spi_begin = λ c. (true, c);
  set_up = λ s c. c;
  usleep = λ us c. c;
  open_device = λ c. (pos 3, c);
  ioctl = λ h r a c. (pos 0, c);
  iow = λ t n size. 2 ^ 30 + 65536 * size + 256 * t + n;
  clock_gettime = λ c. ((1, 2), c);
  gpio_out = λ level c. c;
  milli = 1;
  micro = 1;
}

abbrev pub empty : StatBuffer ℕ
empty = record {
  v = 0;
  count = 0;
  vmean = 0;
  vmax = 0;
  vmin = 0;
  vstddev = 0;
  vrange = 0;
  ic_sum = 0;
  ic_sum2 = 0;
}

abbrev pub board : Board Chip ℕ
board = record { machine = machine; devhndl = neg 1; runtime = empty; period = empty }
